-- ===== src/PollCache/Cache.antt =====
-- `Cache` (internal/pollcache/cache.go), the poll loader of the services, over a shared store and an
-- origin. The state is the local cache beside the world of the two; the time that a call reads is an
-- argument, `singleflight` is the exclusion of two calls for one poll, and log lines are left out.
use voting_service.Base.{ℕ, String, Bool, true, false, ◌&&◌, Option, none, some, if◌then◌else◌}
use voting_service.Base.Int.{ℤ, ltb_ℤ}
use voting_service.Entity.Errors.{
  Result, ok, err, wrap_error, wrapped, err_poll_not_found, code_of, unavailable, is_not_found,
}
use voting_service.Entity.Poll.{Poll}
use voting_service.Ports.{Action, PollLoader}
use voting_service.TtlCache.Sharded
use voting_service.TtlCache.Sharded.{Ttl, new_ttl}

-- `Entry`; the poll of a missing entry is never read.
pub data Entry : Type 0 where
  present : Poll → Entry
  missing : Entry

-- `SharedStore` and `Origin`.
pub record SharedStore (W : Type 0) : Type 0 where
  pub get : String → Action W (Option Entry)
  pub set : String → Entry → ℤ → Action W (Unit {0})
  pub delete : String → Action W (Unit {0})

pub record Origin (W : Type 0) : Type 0 where
  pub get_poll : String → Action W Poll

-- `Config`.
pub record Config : Type 0 where
  pub local_ttl : ℤ
  pub shared_ttl : ℤ
  pub negative_ttl : ℤ
  pub local_capacity : ℕ

-- The local cache and the world around it.
pub record State (W : Type 0) : Type 0 where
  pub local : Ttl Entry
  pub world : W

-- `New`.
unfoldable pub new_cache : {W : Type 0} → Config → W → State W
new_cache cfg w = record { local = new_ttl cfg.local_capacity; world = w }

-- `unwrap`.
unfoldable pub unwrap : Entry → Result Poll
unwrap (present poll) = ok poll
unwrap missing = err err_poll_not_found

-- `entry.Missing`.
abbrev pub is_missing : Entry → Bool
is_missing (present poll) = false
is_missing missing = true

-- `localTTLFor`.
unfoldable pub local_ttl_for : Config → Entry → ℤ
local_ttl_for cfg entry =
    if is_missing entry && ltb_ℤ cfg.negative_ttl cfg.local_ttl
    then cfg.negative_ttl
    else cfg.local_ttl

-- What an entry resolves to.
unfoldable pub unwrapped : Result Entry → Result Poll
unwrapped (ok entry) = unwrap entry
unwrapped (err e) = err e

module _ {W : Type 0} (hash : String → ℕ) (shared : SharedStore W) (origin : Origin W)
    (cfg : Config) where
  -- `c.local.Set` with the lifetime of the entry.
  unfoldable pub keep : ℕ → String → Entry → State W → State W
  keep now poll_id entry s = record s {
    local = Sharded.set hash now poll_id entry (local_ttl_for cfg entry) s.local;
  }

  -- `Cache.store`: a failed write is only logged.
  unfoldable pub save : ℕ → String → Entry → ℤ → State W → Entry × State W
  save now poll_id entry shared_ttl s =
      let (_, w) = shared.set poll_id entry shared_ttl s.world in
      (entry, keep now poll_id entry (record s { world = w }))

  -- The `switch` on what the origin returned.
  unfoldable pub from_origin : ℕ → String → Result Poll → State W → Result Entry × State W
  from_origin now poll_id (ok poll) s =
      let (entry, s') = save now poll_id (present poll) cfg.shared_ttl s in (ok entry, s')
  from_origin now poll_id (err e) s =
      let (entry, s') = save now poll_id missing cfg.negative_ttl s in
      if is_not_found (code_of e) then (ok entry, s') else (err e, s)

  -- The origin is asked.
  unfoldable pub ask_origin : ℕ → String → State W → Result Entry × State W
  ask_origin now poll_id s =
      let (found, w) = origin.get_poll poll_id s.world in
      from_origin now poll_id found (record s { world = w })

  -- The branches of `resolve` on the shared store's reply.
  unfoldable pub from_shared : ℕ → String → Result (Option Entry) → State W → Result Entry × State W
  from_shared now poll_id (ok (some entry)) s = (ok entry, keep now poll_id entry s)
  from_shared now poll_id _ s = ask_origin now poll_id s

  -- `Cache.resolve`.
  unfoldable pub resolve : ℕ → String → State W → Result Entry × State W
  resolve now poll_id s =
      let (held, local) = Sharded.get hash now poll_id s.local in
      let (reply, w) = shared.get poll_id s.world in
      elim held [
        | some entry ↦ (ok entry, record s { local = local })
        | none ↦ from_shared now poll_id reply (record { local = local; world = w })
      ]

  -- `Cache.Poll`.
  unfoldable pub poll : ℕ → String → Action (State W) Poll
  poll now poll_id s =
      let (held, local) = Sharded.get hash now poll_id s.local in
      elim held [
        | some entry ↦ (unwrap entry, record s { local = local })
        | none ↦
            let (resolved, s') = resolve now poll_id (record s { local = local }) in
            (unwrapped resolved, s')
      ]

  -- `Cache.Invalidate`.
  unfoldable pub invalidate : String → Action (State W) (Unit {0})
  invalidate poll_id s =
      let (done, w) = shared.delete poll_id s.world in
      (
        elim done [
          | ok _ ↦ ok tt
          | err e ↦ err (
              wrapped "invalidate poll cache"
                (wrap_error unavailable e "failed to invalidate poll cache"))
        ],
        record { local = Sharded.delete hash poll_id s.local; world = w },
      )

  -- The cache as the port of the services, at one time.
  abbrev pub loader : ℕ → PollLoader (State W)
  loader now = record { poll = poll now; invalidate = invalidate }
