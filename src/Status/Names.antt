-- ===== src/Status/Names.antt =====
-- The names of status codes tell the codes apart.
use text.Mathlib.Text.{◌==◌ as str_eq}
use text.Mathlib.TextEquality.{eq_iff}
use plcstub.Base.{
  ◌≡◌, ◌↔◌, inl, inr, refl, String, Bool, true, false, not, ◌&&◌, List, [], ◌∷◌, arith, ℤ, ◌==ℤ◌,
  ◌≤ℤ◌, eq_of_==ℤ, Bool-cases, if◌then◌else◌,
}
use plcstub.Status.{cases, select, plc_tag_decode_error, err_busy, status_pending}

-- No case has the given name.
abbrev fresh : String → List (ℤ × String) → Bool
fresh s [] = true
fresh s ((_, name) ∷ rest) = not (str_eq s name) && fresh s rest

-- The names of the cases are distinct, and none is the fallback.
abbrev distinct : List (ℤ × String) → Bool
distinct [] = true
distinct ((_, name) ∷ rest) = not (str_eq name "Unknown error.") && fresh name rest && distinct rest

cases-distinct : distinct cases ≡ true
cases-distinct = refl

abbrev has_label : ℤ → List (ℤ × String) → Bool
has_label rc [] = false
has_label rc ((c, _) ∷ rest) = if rc ==ℤ c then true else has_label rc rest

-- A code that is selected from a list where a name is fresh does not get that name.
select-fresh :
    (s : String) (rc : ℤ) (l : List (ℤ × String))
    → fresh s l ≡ true
    → (str_eq s "Unknown error.") ≡ false
    → (str_eq s (select rc l)) ≡ false
unfolding select
select-fresh s rc [] f u = u
select-fresh s rc ((c, name) ∷ rest) f u = ground (arith, select-fresh s rc rest)

select-unknown :
    (rc : ℤ) (l : List (ℤ × String))
    → distinct l ≡ true
    → has_label rc l ≡ true
    → (str_eq (select rc l) "Unknown error.") ≡ false
unfolding select
select-unknown rc [] d h = cc
select-unknown rc ((c, name) ∷ rest) d h = ground (arith, select-unknown rc rest)

distinct_head :
    (c : ℤ) (name : String) (rest : List (ℤ × String))
    → distinct ((c, name) ∷ rest) ≡ true
    → (str_eq name "Unknown error." ≡ false) × (fresh name rest ≡ true) × (distinct rest ≡ true)
distinct_head c name rest d = ground arith

select-injective :
    (a b : ℤ) (l : List (ℤ × String))
    → distinct l ≡ true
    → has_label a l ≡ true
    → has_label b l ≡ true
    → select a l ≡ select b l
    → a ≡ b
unfolding select
select-injective a b [] d ha hb e = cc
select-injective a b ((c, name) ∷ rest) d ha hb e =
    let (u, f, d') = distinct_head c name rest d in
    elim (Bool-cases (a ==ℤ c)) [
      | inl p ↦ elim (Bool-cases (b ==ℤ c)) [
        | inl q ↦ cc (eq_of_==ℤ a c p, eq_of_==ℤ b c q)
        | inr q ↦ ground (arith, select-fresh name b rest f u, eq_iff name (select b rest))
      ]
      | inr p ↦ elim (Bool-cases (b ==ℤ c)) [
        | inl q ↦ ground (arith, select-fresh name a rest f u, eq_iff name (select a rest))
        | inr q ↦ select-injective a b rest d' (ground arith) (ground arith) (ground arith)
      ]
    ]

-- The labels of the cases are the codes from PLCTAG_ERR_BUSY to PLCTAG_STATUS_PENDING.
labels : (rc : ℤ) → err_busy ≤ℤ rc → rc ≤ℤ status_pending → has_label rc cases ≡ true
labels rc low high = ground arith

unlabelled :
    (rc : ℤ) (l : List (ℤ × String)) → has_label rc l ≡ false → select rc l ≡ "Unknown error."
unfolding select
unlabelled rc [] h = refl
unlabelled rc ((c, name) ∷ rest) h = ground (arith, unlabelled rc rest)

no_label : (rc : ℤ) → has_label rc cases ≡ true → (err_busy ≤ℤ rc) × (rc ≤ℤ status_pending)
no_label rc h = ground arith

-- `plc_tag_decode_error` falls back to "Unknown error." exactly for the codes outside the range
-- from PLCTAG_ERR_BUSY to PLCTAG_STATUS_PENDING.
pub decode_error-unknown_iff :
    (rc : ℤ)
    → (plc_tag_decode_error rc ≡ "Unknown error.") ↔ ((err_busy ≤ℤ rc) × (rc ≤ℤ status_pending) → ⊥)
unfolding plc_tag_decode_error
decode_error-unknown_iff rc = (
  (λ e r. ground (
    arith,
    select-unknown rc cases cases-distinct (labels rc r.0 r.1),
    eq_iff (select rc cases) "Unknown error.",
  )),
  (λ out. elim (Bool-cases (has_label rc cases)) [
    | inl h ↦ absurd (out (no_label rc h))
    | inr h ↦ unlabelled rc cases h
  ]),
)

-- Two codes of that range with the same name are the same code.
pub decode_error-injective :
    (a b : ℤ)
    → err_busy ≤ℤ a
    → a ≤ℤ status_pending
    → err_busy ≤ℤ b
    → b ≤ℤ status_pending
    → plc_tag_decode_error a ≡ plc_tag_decode_error b
    → a ≡ b
unfolding plc_tag_decode_error
decode_error-injective a b la ha lb hb e =
    select-injective a b cases cases-distinct (labels a la ha) (labels b lb hb) e
