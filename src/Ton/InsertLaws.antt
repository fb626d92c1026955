-- ===== src/Ton/InsertLaws.antt =====
-- On the collection of transactions under insertions, as src/modules/ton/account-subscription.service.ts
-- makes them, and on the latest of its documents.
use mathlib.Core.List.{Memᴰ}
use mathlib.Core.List.Memᴰ
use vnst_be.Base.{
  ◌≤◌, ◌<◌, ◌≡◌, refl, ap, subst, ◌⊎◌, inl, inr, true, false, Option, none, some, List, [], ◌∷◌,
  ◌++◌, All, Text, text_eq, text_eq_refl, Bool-cases, arith,
}
use vnst_be.Schema.TonTransaction.{TonTransaction}
use vnst_be.Ton.Stored.{is_stored, insert, insert_all}

is_stored-append :
    (hash : Text) (rows : List TonTransaction) (p : TonTransaction)
    → is_stored hash rows ≡ true ⊎ p.hash ≡ hash
    → is_stored hash (rows ++ p ∷ []) ≡ true
is_stored-append hash [] p (inl e) = absurd cc
is_stored-append hash [] p (inr e) = rw (e, text_eq_refl hash)
is_stored-append hash (r ∷ rows) p h = elim (Bool-cases (text_eq r.hash hash)) [
  | inl same ↦ rw same refl
  | inr other ↦
      rw other
        (is_stored-append hash rows p (elim h [ inl e ↦ inl (rw other at e) | inr e ↦ inr e ]))
]

insert-is_stored :
    (rows : List TonTransaction) (p : TonTransaction) → is_stored p.hash (insert rows p) ≡ true
unfolding insert
insert-is_stored rows p = elim (Bool-cases (is_stored p.hash rows)) [
  | inl there ↦ rw there there
  | inr missing ↦ rw missing (is_stored-append p.hash rows p (inr refl))
]

insert-keeps :
    (hash : Text) (rows : List TonTransaction) (p : TonTransaction)
    → is_stored hash rows ≡ true
    → is_stored hash (insert rows p) ≡ true
unfolding insert
insert-keeps hash rows p h = elim (Bool-cases (is_stored p.hash rows)) [
  | inl there ↦ rw there h
  | inr missing ↦ rw missing (is_stored-append hash rows p (inl h))
]

insert_all-keeps :
    (hash : Text) (rows ps : List TonTransaction)
    → is_stored hash rows ≡ true
    → is_stored hash (insert_all rows ps) ≡ true
unfolding insert_all
insert_all-keeps hash rows [] h = h
insert_all-keeps hash rows (p ∷ ps) h =
    insert_all-keeps hash (insert rows p) ps (insert-keeps hash rows p h)

pub insert_all-is_stored :
    (rows ps : List TonTransaction) → All (λ p. is_stored p.hash (insert_all rows ps) ≡ true) ps
unfolding insert_all
insert_all-is_stored rows [] = tt
insert_all-is_stored rows (p ∷ ps) = (
  insert_all-keeps p.hash (insert rows p) ps (insert-is_stored rows p),
  insert_all-is_stored (insert rows p) ps,
)

-- `findOne().sort({ timestamp: -1 })`: a document with the greatest timestamp.
abbrev pub IsLatest : Option TonTransaction → List TonTransaction → Type 0
IsLatest none rows = rows ≡ []
IsLatest (some t) rows =
    Memᴰ t rows × ((r : TonTransaction) → Memᴰ r rows → r.timestamp ≤ t.timestamp)

insert-Mem :
    (rows : List TonTransaction) (p r : TonTransaction)
    → Memᴰ r (insert rows p)
    → Memᴰ r rows ⊎ r ≡ p
unfolding insert
insert-Mem rows p r m = elim (Bool-cases (is_stored p.hash rows)) [
  | inl there ↦ inl (rw there at m)
  | inr missing ↦ elim (Memᴰ.append_cases rows (rw missing at m)) [
    | inl old ↦ inl old
    | inr (Memᴰ.head e) ↦ inr e
    | inr (Memᴰ.tail n) ↦ elim n [ ]
  ]
]

insert_all-Mem :
    (rows ps : List TonTransaction) (r : TonTransaction)
    → Memᴰ r (insert_all rows ps)
    → Memᴰ r rows ⊎ Memᴰ r ps
unfolding insert_all
insert_all-Mem rows [] r m = inl m
insert_all-Mem rows (p ∷ ps) r m = elim (insert_all-Mem (insert rows p) ps r m) [
  | inl old ↦ elim (insert-Mem rows p r old) [ inl older ↦ inl older | inr e ↦ inr (Memᴰ.head e) ]
  | inr later ↦ inr (Memᴰ.tail later)
]

insert-keeps_Mem :
    (rows : List TonTransaction) (p r : TonTransaction) → Memᴰ r rows → Memᴰ r (insert rows p)
unfolding insert
insert-keeps_Mem rows p r m = elim (Bool-cases (is_stored p.hash rows)) [
  | inl there ↦ rw there m
  | inr missing ↦ rw missing (Memᴰ.append_left (p ∷ []) m)
]

insert_all-keeps_Mem :
    (rows ps : List TonTransaction) (r : TonTransaction) → Memᴰ r rows → Memᴰ r (insert_all rows ps)
unfolding insert_all
insert_all-keeps_Mem rows [] r m = m
insert_all-keeps_Mem rows (p ∷ ps) r m =
    insert_all-keeps_Mem (insert rows p) ps r (insert-keeps_Mem rows p r m)

-- A new record that is later than the others is the latest one.
pub insert_all-IsLatest :
    (rows ps : List TonTransaction) (p : TonTransaction) (latest : Option TonTransaction)
    → is_stored p.hash rows ≡ false
    → ((r : TonTransaction) → Memᴰ r rows ⊎ Memᴰ r ps → r.timestamp < p.timestamp)
    → IsLatest latest (insert_all rows (p ∷ ps))
    → latest ≡ some p
unfolding insert_all insert
insert_all-IsLatest rows ps p latest fresh later l =
    let there : Memᴰ p (insert_all (rows ++ p ∷ []) ps) =
      insert_all-keeps_Mem (rows ++ p ∷ []) ps p (Memᴰ.append_right rows (Memᴰ.head refl)) in
    go latest (subst (λ x. IsLatest latest (insert_all x ps)) (rw fresh) l) there
  where
    go :
        (latest : Option TonTransaction)
        → IsLatest latest (insert_all (rows ++ p ∷ []) ps)
        → Memᴰ p (insert_all (rows ++ p ∷ []) ps)
        → latest ≡ some p
    go none nothing there = elim (subst (λ x. Memᴰ p x) nothing there) [ ]
    go (some t) (found, greatest) there = elim (insert_all-Mem (rows ++ p ∷ []) ps t found) [
      | inr new ↦ let a = greatest p there in let b = later t (inr new) in absurd (omega arith)
      | inl m ↦ elim (Memᴰ.append_cases rows m) [
        | inl old ↦ let a = greatest p there in let b = later t (inl old) in absurd (omega arith)
        | inr (Memᴰ.head e) ↦ ap some e
        | inr (Memᴰ.tail n) ↦ elim n [ ]
      ]
    ]
