-- ===== src/OwnExt/Laws.antt =====
-- std_own_ext.h: what `compact` keeps and leaves out.
use cpp_tricks.Common.{
  ◌≤◌, ◌≡◌, refl, ap, Bool, true, false, not, some, List, [], ◌∷◌, length, map, arith,
}
use cpp_tricks.OwnExt.{compact}

-- Puts the elements of two lists where the mask says.
unfoldable pub merge {ℓ} : {A : Type ℓ} → List Bool → List A → List A → List A
merge [] ins outs = []
merge (true ∷ mask) [] outs = merge mask [] outs
merge (true ∷ mask) (x ∷ ins) outs = x ∷ merge mask ins outs
merge (false ∷ mask) ins [] = merge mask ins []
merge (false ∷ mask) ins (x ∷ outs) = x ∷ merge mask ins outs

merge-empty {ℓ} : {A : Type ℓ} (mask : List Bool) → merge {A = A} mask [] [] ≡ []
unfolding merge
merge-empty [] = refl
merge-empty (true ∷ mask) = merge-empty mask
merge-empty (false ∷ mask) = merge-empty mask

-- With a mask as long as the input at least, compact succeeds under the mask and under its opposite,
-- and the two results, put back where the mask says, are the input: nothing is lost, doubled or moved.
pub merge-compact {ℓ} :
    {A : Type ℓ} (xs : List A) (mask : List Bool)
    → length xs ≤ length mask
    → (ins : List A) × (outs : List A) × (compact xs mask ≡ some ins)
      × (compact xs (map not mask) ≡ some outs)
      × (merge mask ins outs ≡ xs)
unfolding compact merge
merge-compact [] mask le = ([], [], refl, refl, merge-empty mask)
merge-compact (x ∷ xs) [] le = absurd (omega (arith, le))
merge-compact (x ∷ xs) (true ∷ mask) le =
    let (ins, outs, e, f, back) = merge-compact xs mask (omega (arith, le)) in
    (x ∷ ins, outs, rw e refl, rw f refl, ap (◌∷◌ x) back)
merge-compact (x ∷ xs) (false ∷ mask) le =
    let (ins, outs, e, f, back) = merge-compact xs mask (omega (arith, le)) in
    (ins, x ∷ outs, rw e refl, rw f refl, ap (◌∷◌ x) back)
