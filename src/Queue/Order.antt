-- ===== src/Queue/Order.antt =====
-- server/src/services/queue.service.ts: the order of the queue, and what its rows say.
use cargo_execution_assistan.Prelude.{
  ℕ, zero, suc, ◌≡◌, refl, ◌≤◌, Bool, true, List, [], ◌∷◌, take, all, All, ltb, arith, Bool-cases,
  inl, inr,
}
use cargo_execution_assistan.Queue.{QueueRow, insert_row, in_receipt_order}
use mathlib.Core.List.{Permᴰ}
use mathlib.Core.List.Permᴰ

-- Each row has the position of the one before it, or a later one.
abbrev pub IsAscending : List QueueRow → Type 0
IsAscending [] = Unit
IsAscending (r ∷ rs) = All (λ q. r.receipt_position ≤ q.receipt_position) rs × IsAscending rs

All-weaken :
    (a b : ℕ) (rs : List QueueRow)
    → a ≤ b
    → All (λ q. b ≤ q.receipt_position) rs
    → All (λ q. a ≤ q.receipt_position) rs
All-weaken a b [] h all = tt
All-weaken a b (r ∷ rs) h (first, rest) = (omega (arith, h, first), All-weaken a b rs h rest)

All-insert_row :
    (a : ℕ) (r : QueueRow) (rs : List QueueRow)
    → a ≤ r.receipt_position
    → All (λ q. a ≤ q.receipt_position) rs
    → All (λ q. a ≤ q.receipt_position) (insert_row r rs)
All-insert_row a r [] h all = (h, tt)
All-insert_row a r (q ∷ qs) h (first, rest) =
    elim (Bool-cases (ltb q.receipt_position r.receipt_position)) [
      | inl less ↦ rw (less, insert_row) (first, All-insert_row a r qs h rest)
      | inr more ↦ rw (more, insert_row) (h, (first, rest))
    ]

insert_row-IsAscending :
    (r : QueueRow) (rs : List QueueRow) → IsAscending rs → IsAscending (insert_row r rs)
insert_row-IsAscending r [] h = (tt, tt)
insert_row-IsAscending r (q ∷ qs) (below, h) =
    elim (Bool-cases (ltb q.receipt_position r.receipt_position)) [
      | inl less ↦
          let le : q.receipt_position ≤ r.receipt_position = ground (arith, less) in
          rw (less, insert_row)
            (All-insert_row q.receipt_position r qs le below, insert_row-IsAscending r qs h)
      | inr more ↦
          let le : r.receipt_position ≤ q.receipt_position = ground (arith, more) in
          rw (more, insert_row)
            ((le, All-weaken r.receipt_position q.receipt_position qs le below), (below, h))
    ]

pub in_receipt_order-IsAscending : (rs : List QueueRow) → IsAscending (in_receipt_order rs)
in_receipt_order-IsAscending [] = tt
in_receipt_order-IsAscending (r ∷ rs) =
    insert_row-IsAscending r (in_receipt_order rs) (in_receipt_order-IsAscending rs)

insert_row-Permᴰ : (r : QueueRow) (rs : List QueueRow) → Permᴰ (r ∷ rs) (insert_row r rs)
insert_row-Permᴰ r [] = Permᴰ.cons refl Permᴰ.nil
insert_row-Permᴰ r (q ∷ qs) = elim (Bool-cases (ltb q.receipt_position r.receipt_position)) [
  | inl less ↦
      rw (less, insert_row)
        (Permᴰ.trans (Permᴰ.swap refl refl) (Permᴰ.cons refl (insert_row-Permᴰ r qs)))
  | inr more ↦ rw (more, insert_row) (Permᴰ.refl (r ∷ q ∷ qs))
]

pub in_receipt_order-Permᴰ : (rs : List QueueRow) → Permᴰ rs (in_receipt_order rs)
in_receipt_order-Permᴰ [] = Permᴰ.nil
in_receipt_order-Permᴰ (r ∷ rs) =
    Permᴰ.trans (Permᴰ.cons refl (in_receipt_order-Permᴰ rs))
      (insert_row-Permᴰ r (in_receipt_order rs))

module _ (p : QueueRow → Bool) where
  all-insert_row :
      (r : QueueRow) (rs : List QueueRow)
      → p r ≡ true
      → all p rs ≡ true
      → all p (insert_row r rs) ≡ true
  all-insert_row r [] h hs = ground arith
  all-insert_row r (q ∷ qs) h hs = elim (Bool-cases (ltb q.receipt_position r.receipt_position)) [
    | inl less ↦
        let first : p q ≡ true = ground (arith, hs) in
        let later : all p qs ≡ true = ground (arith, hs) in
        rw (less, insert_row) (rw (first, all) (all-insert_row r qs h later))
    | inr more ↦ rw (more, insert_row) (rw (h, all) hs)
  ]

  pub all-in_receipt_order :
      (rs : List QueueRow) → all p rs ≡ true → all p (in_receipt_order rs) ≡ true
  all-in_receipt_order [] h = refl
  all-in_receipt_order (r ∷ rs) h =
      let first : p r ≡ true = ground (arith, h) in
      let later : all p rs ≡ true = ground (arith, h) in
      all-insert_row r (in_receipt_order rs) first (all-in_receipt_order rs later)

  pub all-take : (n : ℕ) (rs : List QueueRow) → all p rs ≡ true → all p (take n rs) ≡ true
  all-take zero rs h = refl
  all-take (suc n) [] h = refl
  all-take (suc n) (r ∷ rs) h =
      let first : p r ≡ true = ground (arith, h) in
      let later : all p rs ≡ true = ground (arith, h) in rw (first, all) (all-take n rs later)
