-- ===== src/Parallel/Invariant.antt =====
-- The locks say who holds them, in every state that threads which obey the discipline get to.
use mathlib.Core.Path.{subst}
use plcstub.Base.{ℕ, ℤ, ◌∙◌, ap, ◌+◌, ◌≡◌, refl, sym, List, [], ◌∷◌, arith, map}
use plcstub.Env.Rb.{Ptr, RbTree}
use plcstub.Env.Libc.{Libc}
use plcstub.TagTree.State.{State, free}
use plcstub.Threads.Weights.{readers_of, writers_of, IsCounted}
use plcstub.Session.{Call, Result}
use plcstub.Parallel.{Prog, Step, here, there, Reach, start, later}
use plcstub.Parallel.Calls.{client}
use plcstub.Parallel.Discipline.{Held, nothing, lock_count, Obeys}
use plcstub.Parallel.Counts.{reads, writes, total, AreCounted, with_one}
use plcstub.Parallel.Discipline.{holds}
use plcstub.Parallel.Moves.{After, exec-After}
use plcstub.Parallel.Obeys.{to}
use plcstub.Parallel.Obeys.Calls.{AreBalanced, client-Obeys}

-- Each thread obeys the discipline from what it holds, and holds nothing at its end.
abbrev pub AreObeying : {T A : Type 0} → List Held → List (Prog T A) → Type 0
AreObeying [] [] = Unit
AreObeying [] (p ∷ ps) = ⊥
AreObeying (h ∷ hs) [] = ⊥
AreObeying (h ∷ hs) (p ∷ ps) = Obeys (to nothing) h p × AreObeying hs ps

-- Nobody holds a lock.
pub record IsUnlocked {T : Type 0} (s : State T) : Type 0 where
  pub tree : s.tag_tree_mtx ≡ free
  pub nodes : (q : Ptr) → lock_count s.heap q ≡ 0

abbrev pub AllBalanced : List (List Call) → Type 0
AllBalanced [] = Unit
AllBalanced (cs ∷ css) = AreBalanced cs × AllBalanced css

module _ {T : Type 0} where
  AreCounted-cong :
      (s : State T) (t t' : (Held → ℕ) → ℕ)
      → ((w : Held → ℕ) → t w ≡ t' w)
      → AreCounted s t
      → AreCounted s t'
  AreCounted-cong s t t' e c = record {
    nodes = λ q. sym (e (holds q)) ∙ c.nodes q;
    read_held = sym (e reads) ∙ c.read_held;
    write_held = sym (e writes) ∙ c.write_held;
    counted = c.counted;
  }

module _ {T A : Type 0} where
  -- What a step leaves, where `t` counts the threads beside those of the list.
  abbrev Kept : State T → List (Prog T A) → ((Held → ℕ) → ℕ) → Type 0
  Kept s ps t = (hs : List Held) × AreObeying hs ps × AreCounted s (λ w. total w hs + t w)

  Step-Kept :
      (t : (Held → ℕ) → ℕ) (hs : List Held) {s s' : State T} {ps ps' : List (Prog T A)}
      → Step s ps s' ps'
      → AreObeying hs ps
      → AreCounted s (λ w. total w hs + t w)
      → Kept s' ps' t
  unfolding total
  Step-Kept t (h ∷ hs) {s} (here {p} {ps} e) (o, os) c =
      let (h', o', c') = subst (After (to nothing) (λ w. total w hs + t w)) e (
        exec-After (to nothing) (λ w. total w hs + t w) h p s o
          (AreCounted-cong s _ _ (λ w. omega arith) c)) in
      (h' ∷ hs, (o', os), AreCounted-cong _ _ _ (λ w. omega arith) c')
  Step-Kept t (h ∷ hs) {s} (there {p} st) (o, os) c =
      let (hs', os', c') =
        Step-Kept (with_one h t) hs st os (AreCounted-cong s _ _ (λ w. omega arith) c) in
      (h ∷ hs', (o, os'), AreCounted-cong _ _ _ (λ w. omega arith) c')
  Step-Kept t [] (here e) o c = absurd o
  Step-Kept t [] (there st) o c = absurd o

  Reach-Kept :
      {s₀ : State T} {ps₀ : List (Prog T A)} {s : State T} {ps : List (Prog T A)}
      → Kept s₀ ps₀ (λ w. 0)
      → Reach s₀ ps₀ s ps
      → Kept s ps (λ w. 0)
  Reach-Kept k start = k
  Reach-Kept k (later r st) = let (hs, os, c) = Reach-Kept k r in Step-Kept _ hs st os c

abbrev all_nothing : List (List Call) → List Held
all_nothing css = map (λ _. nothing) css

module _ {T : Type 0} (rb : RbTree T) (libc : Libc) (fb : ℕ → ℤ → ℕ) where
  -- The threads at their start, each with its calls.
  abbrev pub clients : List (List Call) → List (Prog T (List Result))
  clients css = map (client rb libc fb) css

  total-nothing :
      (w : Held → ℕ) (css : List (List Call)) → w nothing ≡ 0 → total w (all_nothing css) ≡ 0
  unfolding total
  total-nothing w [] e = refl
  total-nothing w (cs ∷ css) e = omega (arith, e, total-nothing w css e)

  clients-AreObeying :
      (css : List (List Call)) → AllBalanced css → AreObeying (all_nothing css) (clients css)
  clients-AreObeying [] b = tt
  clients-AreObeying (cs ∷ css) (b, bs) = (client-Obeys rb libc fb cs b, clients-AreObeying css bs)

  start-Kept :
      (s : State T) (css : List (List Call))
      → IsUnlocked s
      → AllBalanced css
      → Kept s (clients css) (λ w. 0)
  start-Kept s css u b = (
    all_nothing css,
    clients-AreObeying css b,
    record {
      nodes = λ q. omega (arith, total-nothing (holds q) css refl, u.nodes q);
      read_held = omega (arith, total-nothing reads css refl, ap readers_of u.tree);
      write_held = omega (arith, total-nothing writes css refl, ap writers_of u.tree);
      counted = subst IsCounted (sym u.tree) tt;
    },
  )

  -- However threads interleave that begin while nobody holds a lock, each with calls among which
  -- plc_tag_lock and plc_tag_unlock do not occur: the locks say who holds them.
  pub Reach-AreCounted :
      (css : List (List Call)) {s₀ s : State T} {ps : List (Prog T (List Result))}
      → IsUnlocked s₀
      → AllBalanced css
      → Reach s₀ (clients css) s ps
      → (hs : List Held) × AreObeying hs ps × AreCounted s (λ w. total w hs)
  Reach-AreCounted css u b r =
      let (hs, os, c) = Reach-Kept (start-Kept _ css u b) r in
      (hs, os, AreCounted-cong _ _ _ (λ w. omega arith) c)
