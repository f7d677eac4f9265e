-- ===== src/Presence/Publisher.antt =====
-- crosspresence/publisher.go: one core session for each person who is connected. The calls of the
-- core and of AccountOf are parameters.
pub mod Reconciled
use nn_friends.Prelude.{
  ℕ, ◌/◌, ◌^◌, String, Option, none, some, List, [], ◌∷◌, Bool, true, false, not, ◌&&◌, ◌||◌, Exec,
  Result, ok, err, if◌then◌else◌, ◌==◌, nat_eq, string_eq, contains,
}
use nn_friends.Prelude.Dict.{Dict, get, put, remove, keys}
use nn_friends.Errors.{Error}

pub record Online : Type 0 where
  pub pid : ℕ
  pub namespace : String
  pub title_id : String
  pub client : String
  pub os : String

pub record Published : Type 0 where
  pub session_id : String
  pub account_id : String
  pub namespace : String
  pub title : String
  pub client : String
  pub os : String

-- AccountOf and the three calls of the core's session registry. Registering takes the account and
-- the person, and returns the id of the session.
pub record Core (W : Type 0) : Type 0 where
  pub account_of : String → ℕ → Exec W Error String
  pub register_session : String → Online → Exec W Error String
  pub heartbeat : String → Exec W Error (Unit {0})
  pub expire_session : String → Exec W Error (Unit {0})

pub record Publisher (W : Type 0) : Type 0 where
  pub live : Dict ℕ Published
  pub world : W

abbrev pub matches : Published → Online → Bool
matches cur o =
    (cur.namespace == o.namespace)
    && ((cur.title == o.title_id) && ((cur.client == o.client) && (cur.os == o.os)))

abbrev pub publish : String → String → Online → Published
publish session account o = record {
  session_id = session;
  account_id = account;
  namespace = o.namespace;
  title = o.title_id;
  client = o.client;
  os = o.os;
}

abbrev pub pids_of : List Online → List ℕ
pids_of [] = []
pids_of (o ∷ os) = o.pid ∷ pids_of os

module _ {W : Type 0} (core : Core W) where
  abbrev pub registered : String → Online → Result Error String × W → Dict ℕ Published → Publisher W
  registered account o (err e, w) live = record { live = live; world = w }
  registered account o (ok session, w) live = record {
    live = put live o.pid (publish session account o);
    world = w;
  }

  abbrev pub resolved : Online → Result Error String × W → Dict ℕ Published → Publisher W
  resolved o (err e, w) live = record { live = live; world = w }
  resolved o (ok account, w) live =
      if account == ""
      then record { live = live; world = w }
      else registered account o (core.register_session account o w) live

  unfoldable pub register_locked : Online → Publisher W → Publisher W
  register_locked o p = resolved o (core.account_of o.namespace o.pid p.world) p.live

  -- An error of ExpireSession is logged only.
  abbrev pub expired : ℕ → Option Published → Publisher W → Publisher W
  expired pid none p = p
  expired pid (some cur) p = record {
    live = remove p.live pid;
    world = (core.expire_session cur.session_id p.world).1;
  }

  unfoldable pub expire_locked : ℕ → Publisher W → Publisher W
  expire_locked pid p = expired pid (get p.live pid) p

  -- A session that the heartbeat does not reach any more is registered again.
  abbrev pub beaten : Online → Result Error (Unit {0}) × W → Publisher W → Publisher W
  beaten o (ok _, w) p = record p { world = w }
  beaten o (err e, w) p = register_locked o (record { live = remove p.live o.pid; world = w })

  abbrev pub updated : Online → Option Published → Publisher W → Publisher W
  updated o none p = register_locked o p
  updated o (some cur) p =
      if matches cur o
      then beaten o (core.heartbeat cur.session_id p.world) p
      else register_locked o (expire_locked o.pid p)

  unfoldable pub update_all : List Online → Publisher W → Publisher W
  update_all [] p = p
  update_all (o ∷ os) p = update_all os (updated o (get p.live o.pid) p)

  -- The sweep over the sessions of those who are gone.
  unfoldable pub sweep : List ℕ → List ℕ → Publisher W → Publisher W
  sweep seen [] p = p
  sweep seen (pid ∷ pids) p = sweep seen pids (if contains pid seen then p else expire_locked pid p)

  unfoldable pub reconcile : List Online → Publisher W → Publisher W
  unfolding update_all sweep
  reconcile online p = let q = update_all online p in sweep (pids_of online) (keys q.live) q

  unfoldable pub expire : ℕ → Publisher W → Publisher W
  unfolding expire_locked
  expire pid p = expire_locked pid p

-- `%016x` in upper case is `hex16`, of Go's fmt and strings.
unfoldable pub title_id_of : (ℕ → String) → String → ℕ → String
title_id_of hex16 namespace title =
    let hi = title / 2 ^ 32 in
    if ((namespace == "wiiu") && (hi == 327680)) || ((namespace == "3ds") && (hi == 262144))
    then hex16 title
    else ""
