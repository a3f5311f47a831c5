-- ===== src/Debug/Laws.antt =====
-- What the debug level promises.
use plcstub.Base.{
  ℕ, ◌≡◌, ◌≢◌, ◌↔◌, ◌⊎◌, inl, inr, refl, sym, ap, length, length-append, Bool-cases, ◌<ℤ◌, String,
  List, [], ◌∷◌, ◌++◌, arith, ℤ, ◌≤ℤ◌, ltb_ℤ, ◌||◌,
}
use plcstub.Outcome.{done, exit}
use plcstub.Debug.{Debug, Line, debug_none, debug_spew, debug_set_level, pdebug}

abbrev pub IsLevel : ℤ → Type 0
IsLevel level = (debug_none ≤ℤ level) × (level ≤ℤ debug_spew)

-- `debug_set_level` accepts a level exactly if it lies between NONE and SPEW, and then it changes
-- the level alone; with any other level it ends the process.
pub debug_set_level-cases :
    (level : ℤ) (d : Debug)
    → (IsLevel level × (debug_set_level level d ≡ done (record d { debug_level = level })))
      ⊎ ((IsLevel level → ⊥) × (debug_set_level level d ≡ exit))
unfolding debug_set_level
debug_set_level-cases level d =
    elim (Bool-cases (ltb_ℤ level debug_none || ltb_ℤ debug_spew level)) [
      | inl bad ↦ inr (λ h. ground arith, rw bad)
      | inr fine ↦ inl (ground arith, rw fine)
    ]

grows : (l : Line) (xs : List Line) → xs ≢ xs ++ l ∷ []
grows l xs e = omega (arith, ap length e, length-append xs (l ∷ []))

-- After an accepted `debug_set_level n` a message of level `m` leaves the log as it was exactly if
-- `n < m`.
pub pdebug-silent_iff :
    (n m : ℤ) (d d' : Debug) (func file msg : String) (line : ℕ)
    → debug_set_level n d ≡ done d'
    → ((pdebug func file line m msg d').output ≡ d.output) ↔ (n <ℤ m)
unfolding debug_set_level pdebug
pdebug-silent_iff n m d d' func file msg line set =
    let e : d' ≡ record d { debug_level = n } = ground arith in
    rw e (elim (Bool-cases (ltb_ℤ n m)) [
      | inl low ↦ rw low (λ _. ground arith, λ _. refl)
      | inr high ↦ rw high (λ same. absurd (grows _ d.output (sym same)), λ lt. ground arith)
    ])
