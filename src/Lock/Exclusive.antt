-- ===== src/Lock/Exclusive.antt =====
-- About `with_lock`, for requests and for runs, and the rule by which a statement about an action is
-- carried to the action under its lock.
use wolochain.Prelude.{◌-◌, ◌≡◌, refl, ◌∙◌, none, ltb, Option-cases, Bool-cases, inl, inr}
use wolochain.Text.{Text}
use wolochain.Fallible.{Fallible, ok, fail}
use wolochain.Config.{Config}
use wolochain.Table.{Key, find, put, find-remove, key_eq_refl}
use wolochain.Node.{Node}
use wolochain.World.{World, Action}
use wolochain.Lock.{holding, with_new_lock, with_free_lock, with_lock}

-- Two states with the same state files and the same sent commands; the outside and the locks may
-- differ.
pub record Agree {C : Type 0} (w w' : World C) : Type 0 where
  pub requests : w.requests ≡ w'.requests
  pub runs : w.runs ≡ w'.runs
  pub challenges : w.challenges ≡ w'.challenges
  pub sent : w.sent ≡ w'.sent

pub Agree-refl : {C : Type 0} (w : World C) → Agree w w
Agree-refl w = record { requests = refl; runs = refl; challenges = refl; sent = refl }

pub Agree-trans : {C : Type 0} {u v w : World C} → Agree u v → Agree v w → Agree u w
Agree-trans a b = record {
  requests = a.requests ∙ b.requests;
  runs = a.runs ∙ b.runs;
  challenges = a.challenges ∙ b.challenges;
  sent = a.sent ∙ b.sent;
}

module _ {C A : Type 0} (node : Node C) (cfg : Config) (key : Key) (path : Text)
    (Post : Fallible A → World C → Type 0)
    (stable : (r : Fallible A) (w w' : World C) → Agree w w' → Post r w → Post r w')
    (action : Action C A) (w : World C)
    (failed : (e : Text) (v : World C) → Agree w v → Post (fail e) v)
    (run : (v : World C) → Agree w v → Post (action v).0 (action v).1) where
  holding_rule :
      (v : World C)
      → Agree w v
      → Post (holding node cfg key path action v).0 (holding node cfg key path action v).1
  unfolding holding
  holding_rule v a =
      let (time, c) = node.now v.env in
      let held = record v { env = c; locks = put key time v.locks } in
      stable _ (action held).1 _
        (record { requests = refl; runs = refl; challenges = refl; sent = refl })
        (run held (record {
          requests = a.requests;
          runs = a.runs;
          challenges = a.challenges;
          sent = a.sent;
        }))

  with_new_lock_rule :
      (v : World C)
      → Agree w v
      → Post
          (with_new_lock node cfg key path action v).0
          (with_new_lock node cfg key path action v).1
  unfolding with_new_lock
  with_new_lock_rule v a = elim (Option-cases (node.create_file path v.env).0) [
    | inl made ↦
        rw (made, with_new_lock)
          (holding_rule _ (record {
            requests = a.requests;
            runs = a.runs;
            challenges = a.challenges;
            sent = a.sent;
          }))
    | inr (e, refused) ↦
        rw (refused, with_new_lock)
          (failed e _ (record {
            requests = a.requests;
            runs = a.runs;
            challenges = a.challenges;
            sent = a.sent;
          }))
  ]

  with_free_lock_rule :
      (v : World C)
      → Agree w v
      → Post
          (with_free_lock node cfg key path action v).0
          (with_free_lock node cfg key path action v).1
  unfolding with_free_lock
  with_free_lock_rule v a = elim (Option-cases (node.make_dir path v.env).0) [
    | inl made ↦
        rw (made, with_free_lock)
          (with_new_lock_rule _ (record {
            requests = a.requests;
            runs = a.runs;
            challenges = a.challenges;
            sent = a.sent;
          }))
    | inr (e, refused) ↦
        rw (refused, with_free_lock)
          (failed e _ (record {
            requests = a.requests;
            runs = a.runs;
            challenges = a.challenges;
            sent = a.sent;
          }))
  ]

  pub with_lock_rule :
      (busy : A)
      → ((v : World C) → Agree w v → Post (ok busy) v)
      → Post
          (with_lock node cfg key path busy action w).0
          (with_lock node cfg key path busy action w).1
  unfolding with_lock
  with_lock_rule busy kept_out = elim (Option-cases (node.make_dir path w.env).0) [
    | inr (e, refused) ↦
        rw (refused, with_lock)
          (failed e _ (record { requests = refl; runs = refl; challenges = refl; sent = refl }))
    | inl made ↦ elim (Option-cases (find key w.locks)) [
      | inl free ↦
          rw (made, free, with_lock)
            (with_new_lock_rule _
              (record { requests = refl; runs = refl; challenges = refl; sent = refl }))
      | inr (written, held) ↦
          let (time, c') = node.now (node.make_dir path w.env).1 in
          elim (Bool-cases (ltb cfg.request_lock_ttl (time - written))) [
            | inl stale ↦
                rw (made, held, stale, with_lock)
                  (with_free_lock_rule _
                    (record { requests = refl; runs = refl; challenges = refl; sent = refl }))
            | inr fresh ↦
                rw (made, held, fresh, with_lock)
                  (kept_out _
                    (record { requests = refl; runs = refl; challenges = refl; sent = refl }))
          ]
    ]
  ]

module _ {C A : Type 0} (node : Node C) (cfg : Config) (key : Key) (path : Text) where
  holding_releases :
      (action : Action C A) (w : World C)
      → find key (holding node cfg key path action w).1.locks ≡ none
  unfolding holding
  holding_releases action w = rw find-remove (rw (key_eq_refl key))

  with_new_lock_releases :
      (action : Action C A) (w : World C)
      → find key w.locks ≡ none
      → find key (with_new_lock node cfg key path action w).1.locks ≡ none
  unfolding with_new_lock
  with_new_lock_releases action w free = elim (Option-cases (node.create_file path w.env).0) [
    | inl made ↦ rw (made, with_new_lock) (holding_releases action _)
    | inr (e, refused) ↦ rw (refused, with_new_lock) free
  ]

  -- Where no lock file of the key stands before, none stands after, however the action ends.
  pub lock_released :
      (busy : A) (action : Action C A) (w : World C)
      → find key w.locks ≡ none
      → find key (with_lock node cfg key path busy action w).1.locks ≡ none
  unfolding with_lock
  lock_released busy action w free = elim (Option-cases (node.make_dir path w.env).0) [
    | inl made ↦ rw (made, free, with_lock) (with_new_lock_releases action _ free)
    | inr (e, refused) ↦ rw (refused, with_lock) free
  ]
