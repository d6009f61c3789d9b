-- ===== src/Documents/Shared/Shown.antt =====
-- inh_evil_reduce_c11_apps.cc, `ps_sample_shared`: the objects that pointers make up.
use cpp_tricks.Common.{
  ℕ, zero, suc, ◌+◌, ◌*◌, ◌≤◌, ◌≡◌, refl, some, List, [], ◌∷◌, ◌++◌, get_elem?, arith,
}
use cpp_tricks.Documents.{Object, Document, streamed, my_class, nested, nothing, item, draw_items}
use cpp_tricks.Documents.Drawing.{lines_of, lines_of-positive}
use cpp_tricks.Documents.Shared.{Model, value_model, class_model, document_model, draw_refs}

module _ {V : Type 0} where
  -- The pointer leads to models that make up the object.
  unfoldable mutual
    pub IsShown : List (Model V) → ℕ → Object V → Type 0
    IsShown store r (streamed v) = get_elem? store r ≡ some (value_model v)
    IsShown store r my_class = get_elem? store r ≡ some class_model
    IsShown store r (nested d) =
        (rs : List ℕ) × (get_elem? store r ≡ some (document_model rs)) × AreShown store rs d

    pub AreShown : List (Model V) → List ℕ → Document V → Type 0
    AreShown store [] nothing = Unit {0}
    AreShown store [] (item o d) = ⊥
    AreShown store (r ∷ rs) nothing = ⊥
    AreShown store (r ∷ rs) (item o d) = IsShown store r o × AreShown store rs d

  get_elem?-more :
      (store : List (Model V)) (m : Model V) (r : ℕ) (x : Model V)
      → get_elem? store r ≡ some x
      → get_elem? (store ++ (m ∷ [])) r ≡ some x
  get_elem?-more [] m r x e = let clash : ⊥ = cc in absurd clash
  get_elem?-more (y ∷ store) m zero x e = e
  get_elem?-more (y ∷ store) m (suc r) x e = get_elem?-more store m r x e

  -- Nothing that was made changes when another model is made.
  mutual
    unfolding IsShown AreShown

    pub IsShown-make_shared :
        (store : List (Model V)) (m : Model V) (r : ℕ) (o : Object V)
        → IsShown store r o
        → IsShown (store ++ (m ∷ [])) r o
    IsShown-make_shared store m r (streamed v) k = get_elem?-more store m r _ k
    IsShown-make_shared store m r my_class k = get_elem?-more store m r _ k
    IsShown-make_shared store m r (nested d) (rs, e, k) =
        (rs, get_elem?-more store m r _ e, AreShown-make_shared store m rs d k)

    pub AreShown-make_shared :
        (store : List (Model V)) (m : Model V) (rs : List ℕ) (d : Document V)
        → AreShown store rs d
        → AreShown (store ++ (m ∷ [])) rs d
    AreShown-make_shared store m [] nothing k = tt
    AreShown-make_shared store m [] (item o d) k = absurd k
    AreShown-make_shared store m (r ∷ rs) nothing k = absurd k
    AreShown-make_shared store m (r ∷ rs) (item o d) (here, k) =
        (IsShown-make_shared store m r o here, AreShown-make_shared store m rs d k)

  -- With three units of fuel for each line, pointers draw what the objects they make up draw.
  pub draw_refs-shown :
      (written : V → List ℕ) (d : Document V) (fuel position : ℕ) (store : List (Model V))
      (rs : List ℕ)
      → AreShown store rs d
      → 3 * lines_of d ≤ fuel
      → draw_refs written fuel store position rs ≡ some (draw_items written position d)
  unfolding draw_refs AreShown draw_items lines_of
  draw_refs-shown written d zero position store rs shown le =
      let positive = lines_of-positive d in absurd (omega (arith, le, positive))
  draw_refs-shown written d (suc zero) position store rs shown le =
      let positive = lines_of-positive d in absurd (omega (arith, le, positive))
  draw_refs-shown written d (suc (suc zero)) position store rs shown le =
      let positive = lines_of-positive d in absurd (omega (arith, le, positive))
  draw_refs-shown written nothing (suc (suc (suc k))) position store [] shown le = refl
  draw_refs-shown written nothing (suc (suc (suc k))) position store (r ∷ rs) shown le =
      absurd shown
  draw_refs-shown written (item o d) (suc (suc (suc k))) position store [] shown le = absurd shown
  draw_refs-shown written (item (streamed v) d) (suc (suc (suc k))) position store (r ∷ rs)
        (here, shown) le =
      rw (here, draw_refs-shown written d (suc (suc k)) position store rs shown (omega (arith, le)))
        refl
  draw_refs-shown written (item my_class d) (suc (suc (suc k))) position store (r ∷ rs)
        (here, shown) le =
      rw (here, draw_refs-shown written d (suc (suc k)) position store rs shown (omega (arith, le)))
        refl
  draw_refs-shown written (item (nested inner) d) (suc (suc (suc k))) position store (r ∷ rs)
        ((rs', here, within), shown) le =
      rw
        (
          here,
          draw_refs-shown written inner k (position + 2) store rs' within (omega (arith, le)),
          draw_refs-shown written d (suc (suc k)) position store rs shown (omega (arith, le)),
        )
        refl
