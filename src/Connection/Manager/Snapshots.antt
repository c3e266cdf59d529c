-- ===== src/Connection/Manager/Snapshots.antt =====
-- The snapshots of manager/lifecycle.rs: the connections that a fan-out or a clean-up works on, taken
-- shard by shard. A poisoned shard yields nothing.
use flare_core.Base.{
  ℕ, Bool, true, not, List, [], ◌∷◌, ◌++◌, Option, none, some, Text, text_eq, ◌==◌, if◌then◌else◌,
  length,
}
use flare_core.Base.Dict.{Dict, get}
use flare_core.Connection.Info.{ConnectionInfo, is_timeout}
use flare_core.Connection.Shards.{Shard, nth, index}
use flare_core.Connection.Shards.Batches.{run_batch}
use flare_core.Connection.Manager.State.{Hashers, ConnectionEntry, ConnectionManager}

-- `ConnectionHandleSnapshot`, `ConnectionAuthSnapshot`, `ConnectionSnapshot`
abbrev pub with_writer : Text → ConnectionEntry → Text × ℕ
with_writer id e = (id, e.writer)

abbrev pub with_auth : Text → ConnectionEntry → Text × ℕ × Bool
with_auth id e = (id, e.writer, e.info.authenticated)

abbrev pub with_info : Text → ConnectionEntry → Text × ℕ × ConnectionInfo
with_info id e = (id, e.writer, e.info)

-- `TimeoutConnectionSnapshot`
abbrev pub with_user : Text → ConnectionEntry → Text × ℕ × Option Text
with_user id e = (id, e.handle, e.info.user_id)

module _ {ℓ} {A : Type ℓ} (keep : Text → ConnectionEntry → Bool)
    (f : Text → ConnectionEntry → A) where
  -- `connections.iter().filter(keep).map(f)`
  abbrev pub taken_from : Dict Text ConnectionEntry → List A
  taken_from [] = []
  taken_from ((id, e) ∷ rest) =
      let others = taken_from rest in if keep id e then f id e ∷ others else others

  -- `connection_shards.iter().flat_map(..)`
  unfoldable pub taken_from_all : List (Shard Text ConnectionEntry) → List A
  taken_from_all [] = []
  taken_from_all (x ∷ s) = (if x.poisoned then [] else taken_from x.entries) ++ taken_from_all s

abbrev pub every : Text → ConnectionEntry → Bool
every id e = true

abbrev other_than : Text → Text → ConnectionEntry → Bool
other_than excluded id e = not (id == excluded)

unfoldable pub connection_handles : ConnectionManager → List (Text × ℕ)
unfolding taken_from_all
connection_handles m = taken_from_all every with_writer m.connection_shards

unfoldable pub connection_handles_except : ConnectionManager → Text → List (Text × ℕ)
unfolding taken_from_all
connection_handles_except m excluded =
    taken_from_all (other_than excluded) with_writer m.connection_shards

unfoldable pub connection_auth_snapshots : ConnectionManager → List (Text × ℕ × Bool)
unfolding taken_from_all
connection_auth_snapshots m = taken_from_all every with_auth m.connection_shards

unfoldable pub connection_auth_snapshots_except : ConnectionManager → Text → List (Text × ℕ × Bool)
unfolding taken_from_all
connection_auth_snapshots_except m excluded =
    taken_from_all (other_than excluded) with_auth m.connection_shards

unfoldable pub connection_snapshots : ConnectionManager → List (Text × ℕ × ConnectionInfo)
unfolding taken_from_all
connection_snapshots m = taken_from_all every with_info m.connection_shards

unfoldable pub connection_snapshots_except :
    ConnectionManager → Text → List (Text × ℕ × ConnectionInfo)
unfolding taken_from_all
connection_snapshots_except m excluded =
    taken_from_all (other_than excluded) with_info m.connection_shards

-- The clock is read for each connection; one reading stands for them.
unfoldable pub timeout_connection_snapshots :
    ℕ → ConnectionManager → ℕ → List (Text × ℕ × Option Text)
unfolding taken_from_all is_timeout
timeout_connection_snapshots now m timeout =
    taken_from_all (λ id e. is_timeout now e.info timeout) with_user m.connection_shards

module _ {ℓ} {A : Type ℓ} (f : Text → ConnectionEntry → A) (m : ConnectionManager) where
  abbrev pub locked : ℕ → List A → Bool
  locked i found = (nth m.connection_shards i).poisoned

  abbrev pub add_found : Text → List A → Option ConnectionEntry → List A
  add_found id found none = found
  add_found id found (some e) = found ++ f id e ∷ []

  abbrev pub look_up : ℕ → List A → Text → List A
  look_up i found id = add_found id found (get id (nth m.connection_shards i).entries)

  -- What the methods named `.._for_ids` share.
  unfoldable pub for_ids : Hashers → List Text → List A
  unfolding run_batch index get
  for_ids h ids =
      run_batch look_up locked (length m.connection_shards) (index h.hash_id m.connection_shards) []
        ids

unfoldable pub connection_handles_for_ids :
    Hashers → ConnectionManager → List Text → List (Text × ℕ)
unfolding for_ids
connection_handles_for_ids h m ids = for_ids with_writer m h ids

unfoldable pub connection_auth_snapshots_for_ids :
    Hashers → ConnectionManager → List Text → List (Text × ℕ × Bool)
unfolding for_ids
connection_auth_snapshots_for_ids h m ids = for_ids with_auth m h ids

unfoldable pub connection_snapshots_for_ids :
    Hashers → ConnectionManager → List Text → List (Text × ℕ × ConnectionInfo)
unfolding for_ids
connection_snapshots_for_ids h m ids = for_ids with_info m h ids
