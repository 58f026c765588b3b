-- ===== src/Lock/Runs.antt =====
-- A lock that nobody holds, on a disk that takes every file.
use wolochain.Prelude.{◌≡◌, refl, none}
use wolochain.Text.{Text}
use wolochain.Config.{Config}
use wolochain.Table.{Key, find}
use wolochain.Node.{Node}
use wolochain.World.{World, Action}
use wolochain.Lock.{holding, with_new_lock, with_lock}
use wolochain.Lock.Exclusive.{Agree}

-- Directories are made, lock files are created, and files are written.
pub record TakesFiles {C : Type 0} (node : Node C) : Type 0 where
  pub makes : (path : Text) (c : C) → (node.make_dir path c).0 ≡ none
  pub creates : (path : Text) (c : C) → (node.create_file path c).0 ≡ none
  pub writes : (path : Text) (c : C) → (node.write_file path c).0 ≡ none

module _ {C A : Type 0} (node : Node C) (cfg : Config) (key : Key) (path : Text) where
  -- The action is run on a world with the same files, and its answer and its files are kept.
  abbrev pub Runs : Action C A → World C → A → Type 0
  Runs action w busy =
      (v : World C) × Agree w v
      × ((with_lock node cfg key path busy action w).0 ≡ (action v).0)
      × ((with_lock node cfg key path busy action w).1.requests ≡ (action v).1.requests)

  pub with_lock-Runs :
      (busy : A) (action : Action C A) (w : World C)
      → TakesFiles node
      → find key w.locks ≡ none
      → Runs action w busy
  unfolding with_lock with_new_lock holding
  with_lock-Runs busy action w takes free =
      rw (takes.makes path w.env, free, with_lock)
        (rw (takes.creates path (node.make_dir path w.env).1, with_new_lock)
          (_, record { requests = refl; runs = refl; challenges = refl; sent = refl }, refl, refl))
