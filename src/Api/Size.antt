-- ===== src/Api/Size.antt =====
-- `plc_tag_get_size` of src/plcstub.c, which converts the address of the node.
use plcstub.Base.{ℕ, ◌%◌, ◌≡◌, ◌≢◌, ◌<◌, ◌^◌, arith, ℤ, pos, ==-refl}
use plcstub.Outcome.{done}
use plcstub.Env.Rb.{Entry, RbTree}
use plcstub.Env.Heap.{Node, get-put}
use plcstub.Env.Libc.{Libc}
use plcstub.TagTree.State.{State, mtx_lock, mtx_unlock}
use plcstub.TagTree.Lookup.{lookup_found}
use plcstub.Api.Access.{to_int}
use plcstub.Api.Access.Locked.{held, released}
use plcstub.Api.RoundTrip.{IsTag}
use plcstub.Api.Calls.{plc_tag_get_size}

to_int-small : (n : ℕ) → n < 2 ^ 31 → to_int n ≡ pos n
to_int-small n small = let e : n % 2 ^ 32 ≡ n = omega arith in rw e (ground arith)

module _ {T : Type 0} (rb : RbTree T) (libc : Libc) {s : State T} where
  size_runs :
      {id : ℤ} {e : Entry} {n : Node}
      → IsTag rb s id e n
      → plc_tag_get_size rb libc id s
        ≡ done (to_int e.node, record s { heap = released e.node n s.heap })
  unfolding plc_tag_get_size mtx_lock mtx_unlock
  size_runs {id} {e} {n} tag =
      rw (lookup_found tag.ready rb libc id e tag.found)
        (ground (arith, tag.at, tag.free, ==-refl e.node, get-put e.node e.node (held n) s.heap))

  -- For two tags whose mutexes are free and whose nodes have different addresses below 2^31, the
  -- sizes that `plc_tag_get_size` returns are different, whatever the buffers hold, equally long
  -- ones too.
  pub sizes_differ :
      (id id' : ℤ) (e e' : Entry) (n n' : Node)
      → IsTag rb s id e n
      → IsTag rb s id' e' n'
      → e.node ≢ e'.node
      → e.node < 2 ^ 31
      → e'.node < 2 ^ 31
      → (x : ℤ) × (x' : ℤ) × (s₁ : State T) × (s₂ : State T) × (plc_tag_get_size rb libc id s
          ≡ done (x, s₁))
        × (plc_tag_get_size rb libc id' s ≡ done (x', s₂))
        × (x ≢ x')
  sizes_differ id id' e e' n n' tag tag' apart small small' = (
    _,
    _,
    _,
    _,
    size_runs tag,
    size_runs tag',
    λ same. ground (arith, apart, to_int-small e.node small, to_int-small e'.node small'),
  )
