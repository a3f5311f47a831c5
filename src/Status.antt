-- ===== src/Status.antt =====
-- The status codes of libplctag.h, and `plc_tag_decode_error` of src/plcstub.c.
pub mod Names
use plcstub.Base.{String, List, [], ◌∷◌, ℤ, pos, negsuc, ◌==ℤ◌, if◌then◌else◌}

abbrev pub status_pending : ℤ
status_pending = pos 1

abbrev pub status_ok : ℤ
status_ok = pos 0

abbrev pub err_abort : ℤ
err_abort = negsuc 0

abbrev pub err_bad_config : ℤ
err_bad_config = negsuc 1

abbrev pub err_bad_connection : ℤ
err_bad_connection = negsuc 2

abbrev pub err_bad_data : ℤ
err_bad_data = negsuc 3

abbrev pub err_bad_device : ℤ
err_bad_device = negsuc 4

abbrev pub err_bad_gateway : ℤ
err_bad_gateway = negsuc 5

abbrev pub err_bad_param : ℤ
err_bad_param = negsuc 6

abbrev pub err_bad_reply : ℤ
err_bad_reply = negsuc 7

abbrev pub err_bad_status : ℤ
err_bad_status = negsuc 8

abbrev pub err_close : ℤ
err_close = negsuc 9

abbrev pub err_create : ℤ
err_create = negsuc 10

abbrev pub err_duplicate : ℤ
err_duplicate = negsuc 11

abbrev pub err_encode : ℤ
err_encode = negsuc 12

abbrev pub err_mutex_destroy : ℤ
err_mutex_destroy = negsuc 13

abbrev pub err_mutex_init : ℤ
err_mutex_init = negsuc 14

abbrev pub err_mutex_lock : ℤ
err_mutex_lock = negsuc 15

abbrev pub err_mutex_unlock : ℤ
err_mutex_unlock = negsuc 16

abbrev pub err_not_allowed : ℤ
err_not_allowed = negsuc 17

abbrev pub err_not_found : ℤ
err_not_found = negsuc 18

abbrev pub err_not_implemented : ℤ
err_not_implemented = negsuc 19

abbrev pub err_no_data : ℤ
err_no_data = negsuc 20

abbrev pub err_no_match : ℤ
err_no_match = negsuc 21

abbrev pub err_no_mem : ℤ
err_no_mem = negsuc 22

abbrev pub err_no_resources : ℤ
err_no_resources = negsuc 23

abbrev pub err_null_ptr : ℤ
err_null_ptr = negsuc 24

abbrev pub err_open : ℤ
err_open = negsuc 25

abbrev pub err_out_of_bounds : ℤ
err_out_of_bounds = negsuc 26

abbrev pub err_read : ℤ
err_read = negsuc 27

abbrev pub err_remote_err : ℤ
err_remote_err = negsuc 28

abbrev pub err_thread_create : ℤ
err_thread_create = negsuc 29

abbrev pub err_thread_join : ℤ
err_thread_join = negsuc 30

abbrev pub err_timeout : ℤ
err_timeout = negsuc 31

abbrev pub err_too_large : ℤ
err_too_large = negsuc 32

abbrev pub err_too_small : ℤ
err_too_small = negsuc 33

abbrev pub err_unsupported : ℤ
err_unsupported = negsuc 34

abbrev pub err_winsock : ℤ
err_winsock = negsuc 35

abbrev pub err_write : ℤ
err_write = negsuc 36

abbrev pub err_partial : ℤ
err_partial = negsuc 37

abbrev pub err_busy : ℤ
err_busy = negsuc 38

-- The cases of the switch, in order.
abbrev pub cases : List (ℤ × String)
cases =
    (status_pending, "PLCTAG_STATUS_PENDING")
    ∷ (status_ok, "PLCTAG_STATUS_OK")
    ∷ (err_abort, "PLCTAG_ERR_ABORT")
    ∷ (err_bad_config, "PLCTAG_ERR_BAD_CONFIG")
    ∷ (err_bad_connection, "PLCTAG_ERR_BAD_CONNECTION")
    ∷ (err_bad_data, "PLCTAG_ERR_BAD_DATA")
    ∷ (err_bad_device, "PLCTAG_ERR_BAD_DEVICE")
    ∷ (err_bad_gateway, "PLCTAG_ERR_BAD_GATEWAY")
    ∷ (err_bad_param, "PLCTAG_ERR_BAD_PARAM")
    ∷ (err_bad_reply, "PLCTAG_ERR_BAD_REPLY")
    ∷ (err_bad_status, "PLCTAG_ERR_BAD_STATUS")
    ∷ (err_close, "PLCTAG_ERR_CLOSE")
    ∷ (err_create, "PLCTAG_ERR_CREATE")
    ∷ (err_duplicate, "PLCTAG_ERR_DUPLICATE")
    ∷ (err_encode, "PLCTAG_ERR_ENCODE")
    ∷ (err_mutex_destroy, "PLCTAG_ERR_MUTEX_DESTROY")
    ∷ (err_mutex_init, "PLCTAG_ERR_MUTEX_INIT")
    ∷ (err_mutex_lock, "PLCTAG_ERR_MUTEX_LOCK")
    ∷ (err_mutex_unlock, "PLCTAG_ERR_MUTEX_UNLOCK")
    ∷ (err_not_allowed, "PLCTAG_ERR_NOT_ALLOWED")
    ∷ (err_not_found, "PLCTAG_ERR_NOT_FOUND")
    ∷ (err_not_implemented, "PLCTAG_ERR_NOT_IMPLEMENTED")
    ∷ (err_no_data, "PLCTAG_ERR_NO_DATA")
    ∷ (err_no_match, "PLCTAG_ERR_NO_MATCH")
    ∷ (err_no_mem, "PLCTAG_ERR_NO_MEM")
    ∷ (err_no_resources, "PLCTAG_ERR_NO_RESOURCES")
    ∷ (err_null_ptr, "PLCTAG_ERR_NULL_PTR")
    ∷ (err_open, "PLCTAG_ERR_OPEN")
    ∷ (err_out_of_bounds, "PLCTAG_ERR_OUT_OF_BOUNDS")
    ∷ (err_read, "PLCTAG_ERR_READ")
    ∷ (err_remote_err, "PLCTAG_ERR_REMOTE_ERR")
    ∷ (err_thread_create, "PLCTAG_ERR_THREAD_CREATE")
    ∷ (err_thread_join, "PLCTAG_ERR_THREAD_JOIN")
    ∷ (err_timeout, "PLCTAG_ERR_TIMEOUT")
    ∷ (err_too_large, "PLCTAG_ERR_TOO_LARGE")
    ∷ (err_too_small, "PLCTAG_ERR_TOO_SMALL")
    ∷ (err_unsupported, "PLCTAG_ERR_UNSUPPORTED")
    ∷ (err_winsock, "PLCTAG_ERR_WINSOCK")
    ∷ (err_write, "PLCTAG_ERR_WRITE")
    ∷ (err_partial, "PLCTAG_ERR_PARTIAL")
    ∷ (err_busy, "PLCTAG_ERR_BUSY")
    ∷ []

-- The first case whose label is the code, or what stands behind the switch.
unfoldable pub select : ℤ → List (ℤ × String) → String
select rc [] = "Unknown error."
select rc ((c, name) ∷ rest) = if rc ==ℤ c then name else select rc rest

unfoldable pub plc_tag_decode_error : ℤ → String
unfolding select
plc_tag_decode_error rc = select rc cases
