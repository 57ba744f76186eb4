-- ===== src/Lease/Clock.antt =====
-- The callables that a lease store of xsync_v2/lease_store.py is given, `_now` and `_verify_runtime`.
-- The clock and the authority of the runtime are not part of the store: they are functions of the
-- number of the call, and answer `none` where they raise. Nor are the lock authority and the file
-- system: after so many calls of these two, each of them raises an error or, with `none`, does not.
use x_sync.Prelude.{
  Bool, Error, Option, Result, String, err, false, if◌then◌else◌, ltb, none, ok, some, true, when,
  ℕ, ◌+◌,
}
use x_sync.Lease.Model.{RuntimeAuthorityCheck}

-- The configuration of a store.
pub record LeaseHost : Type 0 where
  pub runtime_epoch : String
  pub clock : ℕ → Option ℕ
  pub runtime_authority_verifier : ℕ → RuntimeAuthorityCheck → Option Bool
  pub assert_authority : ℕ → Option Error
  pub open_transaction_directory : ℕ → Option Error
  pub write_temporary : ℕ → Option Error
  pub link : ℕ → Option Error

-- The number of calls that were made, and `_last_clock_value`.
pub record Calls : Type 0 where
  pub count : ℕ
  pub last_clock_value : Option ℕ

pub record Reading : Type 0 where
  pub value : ℕ
  pub calls : Calls

abbrev pub called : Calls → Calls
called calls = record calls { count = calls.count + 1 }

unfoldable pub read_value : Calls → Option ℕ → Result Reading
read_value calls none = err Error.clock_failed
read_value calls (some value) =
    if when false (ltb value) calls.last_clock_value
    then err Error.clock_rolled_back
    else ok (record {
      value = value;
      calls = record { count = calls.count + 1; last_clock_value = some value };
    })

unfoldable pub now : LeaseHost → Calls → Result Reading
now host calls = read_value calls (host.clock calls.count)

unfoldable pub accept_runtime : Calls → Option Bool → Result Calls
accept_runtime calls none = err Error.runtime_authority_failed
accept_runtime calls (some false) = err Error.runtime_authority_rejected
accept_runtime calls (some true) = ok (called calls)

unfoldable pub verify_runtime : LeaseHost → RuntimeAuthorityCheck → Calls → Result Calls
verify_runtime host check calls =
    accept_runtime calls (host.runtime_authority_verifier calls.count check)
