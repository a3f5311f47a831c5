-- ===== src/Parallel/Obeys/Access.antt =====
-- What src/plcstub.c does behind the lookup of a tag obeys the discipline of the locks.
use plcstub.Base.{ℕ, refl, Option, none, some, ℤ, pos, ltb_ℤ}
use plcstub.Types.{type_to_enum}
use plcstub.Env.Rb.{Ptr}
use plcstub.TagTree.Metatag.{array_len}
use plcstub.Api.Access.{is_array}
use plcstub.Parallel.{Prog}
use plcstub.Parallel.Calls.{
  check_offset_prog, get_locked_prog, set_locked_prog, notify_both_prog, set_callback_prog,
}
use plcstub.Parallel.Discipline.{Held, nothing, holding, Obeys, Obeys-bind}
use plcstub.Parallel.Keeps.{
  deref-Spares, call_cb-Spares, set_cb-Spares, read_data-Spares, write_data-Spares,
}
use plcstub.Parallel.Obeys.{holds-holding, to, Obeys-if, after_unlock-holding}

-- Behind the check of the offset: the mutex has been released where the offset is refused.
abbrev checked : Ptr → Option ℤ → Held
checked p none = nothing
checked p (some off) = holding p

module _ {T A : Type 0} (Q : A → Held) (p : Ptr) where
  checked_option :
      (c : Option ℤ) (m : Prog T A) (k : ℤ → Prog T A)
      → Obeys Q nothing m
      → ((off : ℤ) → Obeys Q (holding p) (k off))
      → Obeys Q (checked p c) (elim c [ none ↦ m | some off ↦ k off ])
  checked_option none m k om ok = om
  checked_option (some off) m k om ok = ok off

module _ (T : Type 0) where
  check_offset_prog-Obeys :
      (p : Ptr) (tag offset : ℤ)
      → Obeys (checked p) (holding p) (check_offset_prog {T = T} p tag offset)
  unfolding check_offset_prog
  check_offset_prog-Obeys p tag offset = (
    deref-Spares p,
    λ n.
        Obeys-if (checked p) (holding p) (is_array (type_to_enum n.type)) _ _
          (Obeys-if (checked p) (holding p) (ltb_ℤ offset (pos (array_len n.type))) _ _ refl
            (_, after_unlock-holding p, refl))
          (Obeys-if (checked p) (holding p) (ltb_ℤ (pos 0) offset) _ _
            (call_cb-Spares p tag _ _, λ _. (_, after_unlock-holding p, refl)) refl),
  )

  pub get_locked_prog-Obeys :
      (w : ℕ) (p : Ptr) (tag offset : ℤ)
      → Obeys (to nothing) nothing (get_locked_prog {T = T} w p tag offset)
  unfolding get_locked_prog
  get_locked_prog-Obeys w p tag offset = (
    _,
    refl,
    (
      call_cb-Spares p tag _ _,
      λ _.
          Obeys-bind (checked p) (to nothing) _
            (λ c. checked_option (to nothing) p c _ _ refl λ off. (
              read_data-Spares w off p,
              λ v. (call_cb-Spares p tag _ _, λ _. (_, after_unlock-holding p, refl)),
            ))
            (holding p) _ (check_offset_prog-Obeys p tag offset),
    ),
  )

  pub set_locked_prog-Obeys :
      (w v : ℕ) (p : Ptr) (tag offset : ℤ)
      → Obeys (to nothing) nothing (set_locked_prog {T = T} w v p tag offset)
  unfolding set_locked_prog
  set_locked_prog-Obeys w v p tag offset = (
    _,
    refl,
    (
      call_cb-Spares p tag _ _,
      λ _.
          Obeys-bind (checked p) (to nothing) _
            (λ c. checked_option (to nothing) p c _ _ refl λ off. (
              write_data-Spares w v off p (holds-holding p),
              λ _. (call_cb-Spares p tag _ _, λ _. (_, after_unlock-holding p, refl)),
            ))
            (holding p) _ (check_offset_prog-Obeys p tag offset),
    ),
  )

  pub notify_both_prog-Obeys :
      (p : Ptr) (tag_id started completed : ℤ)
      → Obeys (to nothing) nothing (notify_both_prog {T = T} p tag_id started completed)
  unfolding notify_both_prog
  notify_both_prog-Obeys p tag_id started completed = (
    _,
    refl,
    (
      call_cb-Spares p tag_id _ _,
      λ _. (call_cb-Spares p tag_id _ _, λ _. (_, after_unlock-holding p, refl)),
    ),
  )

  pub set_callback_prog-Obeys :
      (p : Ptr) (cb : Option ℕ) → Obeys (to nothing) nothing (set_callback_prog {T = T} p cb)
  unfolding set_callback_prog
  set_callback_prog-Obeys p cb =
      (_, refl, (set_cb-Spares cb p (holds-holding p), λ _. (_, after_unlock-holding p, refl)))
