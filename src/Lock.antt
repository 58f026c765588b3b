-- ===== src/Lock.antt =====
-- `withRequestLock` and `withRunLock` of cmd/wolochaind/cmd/settlement.go: a lock file around an
-- action. They differ in the file's directory and in the answer to a busy lock.
pub mod Exclusive
pub mod Runs
use wolochain.Prelude.{ℕ, ◌-◌, Bool, Option, none, some, ltb, if◌then◌else◌}
use wolochain.Text.{Text}
use wolochain.Fallible.{Fallible, ok, fail}
use wolochain.Config.{Config}
use wolochain.Table.{Key, find, put, remove}
use wolochain.Node.{Node}
use wolochain.World.{World, Action, set_env}

module _ {C A : Type 0} (node : Node C) (cfg : Config) (key : Key) (path : Text) where
  -- The action with the lock file written, and the file removed behind it, whatever happened.
  unfoldable pub holding : Action C A → Action C A
  holding action w =
      let (time, c) = node.now w.env in
      let (result, w') = action (record w { env = c; locks = put key time w.locks }) in
      (result, record w' { locks = remove key w'.locks })

  -- `os.OpenFile` with `O_CREATE|O_EXCL` where no file of that name stands.
  unfoldable pub with_new_lock : Action C A → Action C A
  with_new_lock action w =
      let (error, c) = node.create_file path w.env in
      elim error [ some e ↦ (fail e, set_env w c) | none ↦ holding action (set_env w c) ]

  -- The directory, then the file. The recursive call of the code, after a stale lock was removed,
  -- finds no file: it is the call of `with_free_lock`.
  unfoldable pub with_free_lock : Action C A → Action C A
  with_free_lock action w =
      let (error, c) = node.make_dir path w.env in
      elim error [ some e ↦ (fail e, set_env w c) | none ↦ with_new_lock action (set_env w c) ]

  unfoldable pub with_lock : A → Action C A → Action C A
  with_lock busy action w =
      let (error, c) = node.make_dir path w.env in
      let (time, c') = node.now c in
      elim error [
        | some e ↦ (fail e, set_env w c)
        | none ↦ elim (find key w.locks) [
          | none ↦ with_new_lock action (set_env w c)
          | some written ↦
              if ltb cfg.request_lock_ttl (time - written)
              then with_free_lock action (record w { env = c'; locks = remove key w.locks })
              else (ok busy, set_env w c')
        ]
      ]
