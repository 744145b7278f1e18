-- ===== src/Connection/State.antt =====
-- client/remote_objects.cpp: the invariant of a `Connection`, and `fail_all`.
use vulkan_remote.Base.{ℕ, ◌+◌, ◌^◌, ◌≤◌, ◌<◌, ◌≡◌, refl, inl, inr, true, false, none, [], arith}
use vulkan_remote.Base.Tests.{◌==◌, if◌then◌else◌, Bool-cases, if_true, if_false}
use vulkan_remote.Base.Lists.{length}
use vulkan_remote.Base.Maps.{find}
use vulkan_remote.Connection.{Connection, new_connection, max_pending, waiters, fail_all}
use vulkan_remote.Connection.Entries.{IsMap}

abbrev pub heartbeats : Connection → ℕ
heartbeats c = if c.heartbeat_id == 0 then 0 else 1

-- At most 1024 requests and a heartbeat are pending, and after a failure nothing is.
pub record Consistent (c : Connection) : Type 0 where
  pub counter : c.next_request_id < 2 ^ 64
  pub keys : IsMap c.pending
  pub no_zero : find 0 c.pending ≡ none
  pub bounded : length c.pending ≤ max_pending + heartbeats c
  pub closed : c.failed ≡ true → c.pending ≡ []
  pub quiet : c.failed ≡ true → (c.application_pending ≡ 0) × (c.heartbeat_id ≡ 0)
  pub both : c.stopping ≡ c.failed

pub begin-Consistent : Consistent new_connection
unfolding IsMap find
begin-Consistent = record {
  counter = omega arith;
  keys = tt;
  no_zero = refl;
  bounded = omega arith;
  closed = λ e. refl;
  quiet = λ e. (refl, refl);
  both = refl;
}

failed-Consistent :
    (c : Connection) → Consistent c → Consistent (fail_all (record c { failed = false })).0
unfolding fail_all IsMap find
failed-Consistent c h = record {
  counter = h.counter;
  keys = tt;
  no_zero = refl;
  bounded = omega arith;
  closed = λ e. refl;
  quiet = λ e. (refl, refl);
  both = refl;
}

fail_all-again : (c : Connection) → c.failed ≡ true → fail_all c ≡ (c, [])
unfolding fail_all
fail_all-again c e = if_true _ _ e

fail_all-first :
    (c : Connection)
    → c.failed ≡ false
    → fail_all c ≡ ((fail_all (record c { failed = false })).0, waiters c.pending)
unfolding fail_all
fail_all-first c e = if_false _ _ e

pub fail_all-Consistent : (c : Connection) → Consistent c → Consistent (fail_all c).0
fail_all-Consistent c h = elim (Bool-cases c.failed) [
  | inl e ↦ rw (fail_all-again c e) h
  | inr e ↦ rw (fail_all-first c e) (failed-Consistent c h)
]
