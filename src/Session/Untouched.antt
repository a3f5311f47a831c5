-- ===== src/Session/Untouched.antt =====
-- Calls on other tags leave a tag as it is.
use plcstub.Base.{
  ℕ, ◌+◌, ◌^◌, ◌≤◌, ◌≡◌, refl, ap, ◌∙◌, false, none, some, Option-cases, inl, inr, List, [], ◌∷◌,
  ◌++◌, arith, ℤ, ◌==ℤ◌, length,
}
use plcstub.Bytes.{Bytes}
use plcstub.Outcome.{Outcome, done, exit, blocked, fault}
use plcstub.Env.Heap.{Node}
use plcstub.Status.{err_not_found}
use plcstub.TagTree.State.{Event}
use plcstub.TagTree.Ops.{metatag_id}
use plcstub.Api.Access.{read_started, read_completed, write_started, write_completed}
use plcstub.Api.Attrib.{Scan, bad_param, attributes, strtok, scan}
use plcstub.Session.{
  Call, Result, int, create, destroy, lock, unlock, status, unregister, get, set, read, write,
  register,
}
use plcstub.Session.Spec.{
  Spec, Action, spec, spec_session, find_tag, replace_tag, drop_tag, listed, on_tag, add_tag,
  remove_tag, new_tag, id_after, get_action, set_action, lock_action, unlock_action, status_action,
  notify_action, register_action, timed,
}
use plcstub.Session.Frame.{
  find_tag-id, find_tag-append, find_tag-drop, find_tag-replace, find_tag-listed, lock-KeepsId,
  unlock-KeepsId, status-KeepsId, register-KeepsId, notify-KeepsId, get-KeepsId, set-KeepsId,
  KeepsId,
}
use plcstub.Env.Rb.{RbTree}
use plcstub.Env.Libc.{Libc}
use plcstub.TagTree.State.{State}
use plcstub.TagTree.Startup.Scalar.{IsGenerous}
use plcstub.Session.{session}
use plcstub.Session.View.{view}
use plcstub.Session.Invariant.{IsInvariant}
use plcstub.Session.Refines.{AreProper, session-Agrees}
use plcstub.Session.Returns.{AreCalm}
use plcstub.Session.Steps.{AreCalmCalls}
use plcstub.Session.Clients.{clients_return}
use plcstub.Session.Program.{specified_of_Agrees}

-- A session that returns is a call and a session that return.
spec_session-cons :
    (fb : ℕ → ℤ → ℕ) (c : Call) (cs : List Call) (σ σ' : Spec) (rs : List Result)
    → spec_session fb (c ∷ cs) σ ≡ done (rs, σ')
    → (r : Result) × (σ₁ : Spec) × (rs' : List Result) × (spec fb c σ ≡ done (r, σ₁))
      × (spec_session fb cs σ₁ ≡ done (rs', σ'))
unfolding spec_session
spec_session-cons fb c cs σ σ' rs e = first (spec fb c σ) refl
  where
    later_calls :
        (r : Result) (σ₁ : Spec) (o : Outcome (List Result × Spec))
        → spec fb c σ ≡ done (r, σ₁)
        → spec_session fb cs σ₁ ≡ o
        → (rs' : List Result) × (spec_session fb cs σ₁ ≡ done (rs', σ'))
    later_calls r σ₁ (done (rs', σ₂)) runs later =
        let same : σ₂ ≡ σ' = ground (arith, later, runs) in
        (rs', later ∙ ap (λ τ. done (rs', τ)) same)
    later_calls r σ₁ exit runs later = absurd (ground (arith, later, runs))
    later_calls r σ₁ blocked runs later = absurd (ground (arith, later, runs))
    later_calls r σ₁ (fault x) runs later = absurd (ground (arith, later, runs))

    first :
        (o : Outcome (Result × Spec))
        → spec fb c σ ≡ o
        → (r : Result) × (σ₁ : Spec) × (rs' : List Result) × (spec fb c σ ≡ done (r, σ₁))
          × (spec_session fb cs σ₁ ≡ done (rs', σ'))
    first (done (r, σ₁)) runs =
        let (rs', rest) = later_calls r σ₁ (spec_session fb cs σ₁) runs refl in
        (r, σ₁, rs', runs, rest)
    first exit runs = absurd (ground (arith, runs))
    first blocked runs = absurd (ground (arith, runs))
    first (fault x) runs = absurd (ground (arith, runs))

-- The call does not name the tag.
abbrev pub Avoids : ℤ → Call → Type 0
Avoids i (create attrib timeout) = Unit
Avoids i (destroy j) = (i ==ℤ j) ≡ false
Avoids i (lock j) = (i ==ℤ j) ≡ false
Avoids i (unlock j) = (i ==ℤ j) ≡ false
Avoids i (status j) = (i ==ℤ j) ≡ false
Avoids i (unregister j) = (i ==ℤ j) ≡ false
Avoids i (get a j offset) = (i ==ℤ j) ≡ false
Avoids i (set a j offset v) = (i ==ℤ j) ≡ false
Avoids i (read j timeout) = (i ==ℤ j) ≡ false
Avoids i (write j timeout) = (i ==ℤ j) ≡ false
Avoids i (register j cb) = (i ==ℤ j) ≡ false

abbrev pub AllAvoid : ℤ → List Call → Type 0
AllAvoid i [] = Unit
AllAvoid i (c ∷ cs) = Avoids i c × AllAvoid i cs

module _ (i : ℤ) (n : Node) (plain : (i ==ℤ metatag_id) ≡ false) where
  -- Wherever a call ends, the tag is there with its node.
  abbrev Keeps : Outcome (Result × Spec) → Type 0
  Keeps o = (r : Result) (σ' : Spec) → o ≡ done (r, σ') → find_tag i σ'.tags ≡ some n

  on_tag-Keeps :
      (j : ℤ) (absent : Result) (act : Action) (σ : Spec)
      → KeepsId act
      → (i ==ℤ j) ≡ false
      → find_tag i σ.tags ≡ some n
      → Keeps (on_tag j absent act σ)
  unfolding on_tag
  on_tag-Keeps j absent act σ keeps other f r σ' e =
      let f' = find_tag-listed i j σ.tags plain ∙ f in
      elim (Option-cases (find_tag j (listed j σ.tags))) [
        | inl gone ↦ ground arith
        | inr (m, there) ↦ acted m there (act m σ.events) refl
      ]
    where
      acted :
          (m : Node)
          → find_tag j (listed j σ.tags) ≡ some m
          → (o : Outcome (Result × Node × List Event)) → act m σ.events ≡ o
          → find_tag i σ'.tags ≡ some n
      acted m there (done (r', x, es)) runs =
          let left : σ' ≡ record { tags = replace_tag j x (listed j σ.tags); events = es } =
            ground (arith, there, runs) in
          let named : x.tag_id ≡ j =
            keeps m σ.events r' x es runs ∙ find_tag-id j (listed j σ.tags) m there in
          ap (λ (τ : Spec). find_tag i τ.tags) left
          ∙ find_tag-replace i j x (listed j σ.tags) other named
          ∙ find_tag-listed i j σ.tags plain
          ∙ f
      acted m there exit runs = absurd (ground (arith, there, runs))
      acted m there blocked runs = absurd (ground (arith, there, runs))
      acted m there (fault x) runs = absurd (ground (arith, there, runs))

  remove-Keeps :
      (j : ℤ) (σ : Spec) → (i ==ℤ j) ≡ false → find_tag i σ.tags ≡ some n → Keeps (remove_tag j σ)
  unfolding remove_tag
  remove-Keeps j σ other f r σ' e = ground (arith, find_tag-drop i j σ.tags other)

  add-Keeps : (name : Bytes) (σ : Spec) → find_tag i σ.tags ≡ some n → Keeps (add_tag name σ)
  unfolding add_tag
  add-Keeps name σ f r σ' e = added (id_after σ.tags) refl
    where
      added : (o : Outcome ℤ) → id_after σ.tags ≡ o → find_tag i σ'.tags ≡ some n
      added (done id) next =
          let kept =
            find_tag-append i (drop_tag metatag_id σ.tags) (new_tag name id ∷ []) n
              (find_tag-drop i metatag_id σ.tags plain ∙ f) in
          let left : σ'.tags ≡ drop_tag metatag_id σ.tags ++ new_tag name id ∷ [] =
            ground (arith, next) in
          ap (find_tag i) left ∙ kept
      added exit next = absurd (ground (arith, next))
      added blocked next = absurd (ground (arith, next))
      added (fault x) next = absurd (ground (arith, next))

  -- `plc_tag_read` and `plc_tag_write`
  timed-Keeps :
      (timeout j first second : ℤ) (absent : Result) (σ : Spec)
      → (i ==ℤ j) ≡ false
      → find_tag i σ.tags ≡ some n
      → Keeps (timed timeout (on_tag j absent (notify_action j first second)) σ)
  timed-Keeps timeout j first second absent σ other f r σ' e = ground (
    arith,
    on_tag-Keeps j absent (notify_action j first second) σ (notify-KeepsId j first second) other f r
        σ',
  )

  create-Keeps :
      (fb : ℕ → ℤ → ℕ) (attrib : Bytes) (timeout : ℤ) (o : Outcome Scan) (σ : Spec)
      → scan (strtok [] attrib) none ≡ o
      → find_tag i σ.tags ≡ some n
      → Keeps (spec fb (create attrib timeout) σ)
  unfolding spec
  create-Keeps fb attrib timeout (done bad_param) σ found f r σ' e = ground (arith, found)
  create-Keeps fb attrib timeout (done (attributes none)) σ found f r σ' e = ground (arith, found)
  create-Keeps fb attrib timeout (done (attributes (some name))) σ found f r σ' e =
      add-Keeps name σ f r σ' (ground (arith, found))
  create-Keeps fb attrib timeout exit σ found f r σ' e = absurd (ground (arith, found))
  create-Keeps fb attrib timeout blocked σ found f r σ' e = absurd (ground (arith, found))
  create-Keeps fb attrib timeout (fault x) σ found f r σ' e = absurd (ground (arith, found))

  spec-Keeps :
      (fb : ℕ → ℤ → ℕ) (c : Call) (σ : Spec)
      → Avoids i c
      → find_tag i σ.tags ≡ some n
      → Keeps (spec fb c σ)
  unfolding spec
  spec-Keeps fb (create attrib timeout) σ other f =
      create-Keeps fb attrib timeout (scan (strtok [] attrib) none) σ refl f
  spec-Keeps fb (destroy j) σ other f = remove-Keeps j σ other f
  spec-Keeps fb (lock j) σ other f = on_tag-Keeps j _ lock_action σ lock-KeepsId other f
  spec-Keeps fb (unlock j) σ other f = on_tag-Keeps j _ unlock_action σ unlock-KeepsId other f
  spec-Keeps fb (status j) σ other f = on_tag-Keeps j _ status_action σ status-KeepsId other f
  spec-Keeps fb (unregister j) σ other f =
      on_tag-Keeps j _ (register_action none) σ (register-KeepsId none) other f
  spec-Keeps fb (get a j offset) σ other f =
      on_tag-Keeps j _ (get_action fb a j offset) σ (get-KeepsId fb a j offset) other f
  spec-Keeps fb (set a j offset v) σ other f =
      on_tag-Keeps j _ (set_action a j offset v) σ (set-KeepsId a j offset v) other f
  spec-Keeps fb (read j timeout) σ other f =
      timed-Keeps timeout j read_started read_completed (int err_not_found) σ other f
  spec-Keeps fb (write j timeout) σ other f =
      timed-Keeps timeout j write_started write_completed (int err_not_found) σ other f
  spec-Keeps fb (register j cb) σ other f =
      on_tag-Keeps j _ (register_action cb) σ (register-KeepsId cb) other f

  pub spec_session-Keeps :
      (fb : ℕ → ℤ → ℕ) (cs : List Call) (σ σ' : Spec) (rs : List Result)
      → AllAvoid i cs
      → find_tag i σ.tags ≡ some n
      → spec_session fb cs σ ≡ done (rs, σ')
      → find_tag i σ'.tags ≡ some n
  unfolding spec_session
  spec_session-Keeps fb [] σ σ' rs others f e = ground arith
  spec_session-Keeps fb (c ∷ cs) σ σ' rs others f e =
      let (r, σ₁, rs', runs, rest) = spec_session-cons fb c cs σ σ' rs e in
      spec_session-Keeps fb cs σ₁ σ' rs' others.1 (spec-Keeps fb c σ others.0 f r σ₁ runs) rest

module _ {T : Type 0} (rb : RbTree T) (libc : Libc) (generous : IsGenerous libc)
    (fb : ℕ → ℤ → ℕ) where
  -- On a started library, called by one thread and given memory whenever it asks, where nobody
  -- holds a tag's mutex, no tag's name has 2^16 bytes, and the buffers have room (the metatag's is
  -- as long as its type says, and any other tag is no array and has eight bytes at least): a
  -- sequence of calls that holds no mutex, uses no negative offset, reads and writes the metatag
  -- byte by byte, names no tag "@tags" or with 2^16 bytes, has no attribute "protocol" without '=',
  -- leaves an ID for every call and is given the handle of a tag, other than the metatag, in none
  -- of its calls, returns and leaves this tag: its name, its type, its bytes, its callback and its
  -- mutex are as they were.
  pub tag_untouched :
      (id : ℤ) (n : Node) (m : ℕ) (cs : List Call) (s : State T)
      → IsInvariant rb s
      → AreCalm m (view rb s).tags
      → 2 ≤ m
      → m + length cs ≤ 2 ^ 31
      → AreProper cs
      → AreCalmCalls cs
      → (id ==ℤ metatag_id) ≡ false
      → AllAvoid id cs
      → find_tag id (view rb s).tags ≡ some n
      → (rs : List Result) × (s' : State T) × (session rb libc fb cs s ≡ done (rs, s'))
        × (find_tag id (view rb s').tags ≡ some n)
  tag_untouched id n m cs s inv c two small proper calm plain others there =
      let (rs, s', ends, _, _, _) =
        clients_return rb libc generous fb m cs s inv c two small proper calm in
      let specified =
        specified_of_Agrees rb libc generous fb rs s'
          (session-Agrees rb libc generous fb cs s inv proper) ends in
      (
        rs,
        s',
        ends,
        spec_session-Keeps id n plain fb cs (view rb s) (view rb s') rs others there specified,
      )
