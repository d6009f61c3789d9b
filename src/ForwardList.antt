-- ===== src/ForwardList.antt =====
-- edu/train/crack_code_lists.cc, `own_forward_list`: a singly linked list with head and tail
-- pointers into a heap of nodes. `none` is an access that C++ leaves undefined (a null pointer, a
-- node that is gone, a second delete) or a failed assert. The loops that follow `next` run on fuel.
pub mod Chain
pub mod Owning
pub mod Destroy
pub mod Copy
pub mod Nth
mod Tests
use cpp_tricks.Common.{
  ℕ, zero, suc, ◌+◌, ◌-◌, Option, none, some, List, [], ◌∷◌, ◌++◌, ◌==◌, ltb, if◌then◌else◌, ◌>>=◌,
}

-- `node *`; `none` is 0.
abbrev pub Pointer : Type 0
Pointer = Option ℕ

pub record Node {ℓ} (A : Type ℓ) : Type ℓ where
  pub elem : A
  pub next : Pointer

-- The nodes by address; `fresh` is above every address that `new` gave out.
pub record Heap {ℓ} (A : Type ℓ) : Type ℓ where
  pub cells : ℕ → Option (Node A)
  pub fresh : ℕ

pub record ForwardList : Type 0 where
  pub head_ : Pointer
  pub tail_ : Pointer

abbrev pub empty_list : ForwardList
empty_list = record { head_ = none; tail_ = none }

abbrev pub swap : ForwardList → ForwardList → ForwardList × ForwardList
swap l rhs = (rhs, l)

module _ {ℓ} {A : Type ℓ} where
  unfoldable pub update : Heap A → ℕ → Option (Node A) → Heap A
  update h a c = record h { cells = λ b. if a == b then c else h.cells b }

  unfoldable pub deref : Heap A → Pointer → Option (Node A)
  deref h none = none
  deref h (some a) = h.cells a

  -- `new node(elem, 0)`, at the address `fresh`
  unfoldable pub new_node : Heap A → A → Heap A
  unfolding update
  new_node h elem = record (update h h.fresh (some (record { elem = elem; next = none }))) {
    fresh = suc h.fresh;
  }

  -- `p->next = q`
  unfoldable pub set_next : Heap A → Pointer → Pointer → Option (Heap A)
  unfolding update
  set_next h none q = none
  set_next h (some a) q = h.cells a >>= λ n. some (update h a (some (record n { next = q })))

  -- `delete p`
  unfoldable pub delete : Heap A → Pointer → Option (Heap A)
  unfolding update
  delete h none = some h
  delete h (some a) = h.cells a >>= λ n. some (update h a none)

  unfoldable pub push_back : Heap A → ForwardList → A → Option (Heap A × ForwardList)
  unfolding new_node set_next
  push_back h l elem = elim l.head_ [
    | none ↦ some (new_node h elem, record { head_ = some h.fresh; tail_ = some h.fresh })
    | some a ↦ set_next (new_node h elem) l.tail_ (some h.fresh) >>= λ h'.
        some (h', record l { tail_ = some h.fresh })
  ]

  -- `while (ptr->next) { auto_ptr<node> _(ptr); ptr = ptr->next; } auto_ptr<node> _(ptr);`
  unfoldable pub destroy_from : ℕ → Heap A → Pointer → Option (Heap A)
  unfolding deref delete
  destroy_from zero h ptr = none
  destroy_from (suc k) h ptr = deref h ptr >>= λ n. elim n.next [
    | none ↦ delete h ptr
    | some q ↦ delete h ptr >>= λ h'. destroy_from k h' (some q)
  ]

  -- The destructor.
  unfoldable pub destroy : ℕ → Heap A → ForwardList → Option (Heap A)
  unfolding destroy_from
  destroy fuel h l = elim l.head_ [ none ↦ some h | some a ↦ destroy_from fuel h (some a) ]

  -- `while (it->next) { tmp.push_back(it->elem); it = it->next; } tmp.push_back(it->elem);`
  unfoldable pub copy_from : ℕ → Heap A → ForwardList → Pointer → Option (Heap A × ForwardList)
  unfolding deref push_back
  copy_from zero h tmp it = none
  copy_from (suc k) h tmp it = deref h it >>= λ n. push_back h tmp n.elem >>= λ (h', tmp').
      elim n.next [
        | none ↦ some (h', tmp')
        | some q ↦ deref h' it >>= λ n'. copy_from k h' tmp' n'.next
      ]

  -- The copy constructor: `tmp` is filled and swapped with the new empty list, then destroyed.
  unfoldable pub copy : ℕ → Heap A → ForwardList → Option (Heap A × ForwardList)
  unfolding copy_from destroy
  copy fuel h rhs =
      (elim rhs.head_ [
        | none ↦ some (h, empty_list)
        | some a ↦ copy_from fuel h empty_list (some a)
      ])
      >>= λ (h', tmp).
          let (tmp', this) = swap tmp empty_list in destroy fuel h' tmp' >>= λ h''. some (h'', this)

  -- `operator=`, its argument copied by the caller: swapped, and destroyed on return.
  unfoldable pub assign : ℕ → Heap A → ForwardList → ForwardList → Option (Heap A × ForwardList)
  unfolding copy destroy
  assign fuel h this rhs = copy fuel h rhs >>= λ (h', by_value).
      let (by_value', this') = swap by_value this in
      destroy fuel h' by_value' >>= λ h''. some (h'', this')

  -- The first loop of `get_nth_to_last` with `k` rounds left; null where the list ends before.
  unfoldable pub open_window : ℕ → Heap A → Pointer → Option Pointer
  unfolding deref
  open_window zero h p2 = some p2
  open_window (suc k) h p2 =
      deref h p2 >>= λ n. elim n.next [ none ↦ some none | some q ↦ open_window k h (some q) ]

  -- `while (p2->next) { p2 = p2->next; p1 = p1->next; } return p1;`
  unfoldable pub slide_window : ℕ → Heap A → Pointer → Pointer → Option Pointer
  unfolding deref
  slide_window zero h p1 p2 = none
  slide_window (suc k) h p1 p2 = deref h p2 >>= λ n2. elim n2.next [
    | none ↦ some p1
    | some q ↦ deref h p1 >>= λ n1. slide_window k h n1.next (some q)
  ]

  unfoldable pub get_nth_to_last : ℕ → Heap A → ForwardList → ℕ → Option Pointer
  unfolding open_window slide_window
  get_nth_to_last fuel h l nth =
      if ltb 1 nth
      then (elim l.head_ [
        | none ↦ some none
        | some a ↦ open_window (nth - 1) h (some a) >>= λ p2. elim p2 [
          | none ↦ some none
          | some b ↦ slide_window fuel h (some a) (some b)
        ]
      ])
      else none

-- What `operator<<` writes: an element, `", "` or a line's end.
pub data Token {ℓ} (A : Type ℓ) : Type ℓ where
  item : A → Token A
  comma endl : Token A

module _ {ℓ} {A : Type ℓ} where
  unfoldable pub print_from : ℕ → Heap A → Pointer → Option (List (Token A))
  unfolding deref
  print_from zero h it = none
  print_from (suc k) h it = deref h it >>= λ n. elim n.next [
    | none ↦ some (item n.elem ∷ [])
    | some q ↦ print_from k h (some q) >>= λ out. some (item n.elem ∷ comma ∷ out)
  ]

  unfoldable pub print : ℕ → Heap A → ForwardList → Option (List (Token A))
  unfolding print_from
  print fuel h l = elim l.head_ [
    | none ↦ some (endl ∷ [])
    | some a ↦ print_from fuel h (some a) >>= λ out. some (out ++ (endl ∷ []))
  ]
