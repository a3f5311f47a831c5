-- ===== src/Session.antt =====
-- Any sequence of calls of src/plcstub.c by one thread: the calls as values, and what runs them.
-- `plc_tag_get_size` is not among them, since what it returns is an address.
pub mod Spec
pub mod View
pub mod Node
pub mod Invariant
pub mod Lift
pub mod Listed
pub mod Lookup
pub mod Change
pub mod Add
pub mod Refines
pub mod Calm
pub mod Returns
pub mod Steps
pub mod Clients
pub mod Start
pub mod Program
pub mod Relist
pub mod Drift
pub mod Frame
pub mod Untouched
use plcstub.Base.{ℕ, Option, none, List, [], ◌∷◌, ℤ}
use plcstub.Bytes.{Bytes}
use plcstub.Env.Rb.{RbTree}
use plcstub.Env.Libc.{Libc}
use plcstub.TagTree.State.{M, pure, ◌>>=◌}
use plcstub.Api.Access.{Accessor, plc_tag_get, plc_tag_set}
use plcstub.Api.Calls.{
  plc_tag_create, plc_tag_destroy, plc_tag_lock, plc_tag_unlock, plc_tag_read, plc_tag_write,
  plc_tag_register_callback, plc_tag_unregister_callback, plc_tag_status,
}

pub data Call : Type 0 where
  create : Bytes → ℤ → Call
  destroy lock unlock status unregister : ℤ → Call
  get : Accessor → ℤ → ℤ → Call
  set : Accessor → ℤ → ℤ → ℕ → Call
  read write : ℤ → ℤ → Call
  register : ℤ → Option ℕ → Call

-- What a call returns: an int, or the bits of a value.
pub data Result : Type 0 where
  int : ℤ → Result
  value : ℕ → Result

module _ {T : Type 0} (rb : RbTree T) (libc : Libc) (fb : ℕ → ℤ → ℕ) where
  abbrev as_int : M T ℤ → M T Result
  as_int m = do r ← m; pure (int r)

  unfoldable pub call : Call → M T Result
  call (create attrib timeout) = as_int (plc_tag_create rb libc attrib timeout)
  call (destroy id) = as_int (plc_tag_destroy rb libc id)
  call (lock id) = as_int (plc_tag_lock rb libc id)
  call (unlock id) = as_int (plc_tag_unlock rb libc id)
  call (status id) = as_int (plc_tag_status rb libc id)
  call (unregister id) = as_int (plc_tag_unregister_callback rb libc id)
  call (get a id offset) = do v ← plc_tag_get rb libc fb a id offset; pure (value v)
  call (set a id offset v) = as_int (plc_tag_set rb libc a id offset v)
  call (read id timeout) = as_int (plc_tag_read rb libc id timeout)
  call (write id timeout) = as_int (plc_tag_write rb libc id timeout)
  call (register id cb) = as_int (plc_tag_register_callback rb libc id cb)

  -- The results of a sequence of calls.
  unfoldable pub session : List Call → M T (List Result)
  session [] = pure []
  session (c ∷ cs) = do r ← call c; rs ← session cs; pure (r ∷ rs)
