-- ===== src/Http/Auth.antt =====
-- Who can move money over HTTP.
use wolochain.Prelude.{◌≡◌, ◌≢◌, inl, inr, refl, true, ◌++◌, is_empty, Bool-cases, arith}
use wolochain.Text.{Text, text, text_eq, trim_space}
use wolochain.Text.Laws.{text_eq_sound}
use wolochain.Fallible.{ok, Fallible-cases}
use wolochain.Config.{Config}
use wolochain.Request.{ExecuteRequest}
use wolochain.Node.{Node}
use wolochain.Probe.{listen_addr_is_loopback}
use wolochain.World.{World}
use wolochain.Run.{RunRequest}
use wolochain.Http.{
  HttpRequest, HttpResponse, check_auth, validate_serve_safety, guarded, serve_payout, serve_run,
}

-- The caller knows the token, or there is none and the service listens on the loopback alone.
pub data MayPay {C : Type 0} (node : Node C) (cfg : Config) (authorization : Text) : Type 0 where
  by_token :
      trim_space authorization ≡ text "Bearer " ++ cfg.auth_token → MayPay node cfg authorization
  by_loopback : listen_addr_is_loopback node cfg ≡ true → MayPay node cfg authorization

module _ {C : Type 0} (node : Node C) (cfg : Config)
    (safe : validate_serve_safety node cfg ≡ ok tt) where
  check_auth-MayPay :
      (authorization : Text) → check_auth cfg authorization ≡ ok tt → MayPay node cfg authorization
  unfolding check_auth validate_serve_safety
  check_auth-MayPay authorization h = elim (Bool-cases (is_empty cfg.auth_token)) [
    | inl tokenless ↦ elim (Bool-cases (listen_addr_is_loopback node cfg)) [
      | inl loopback ↦ by_loopback loopback
      | inr beyond ↦ absurd (ground arith)
    ]
    | inr secured ↦
        elim (Bool-cases (text_eq (trim_space authorization) (text "Bearer " ++ cfg.auth_token))) [
          | inl known ↦ by_token (text_eq_sound _ _ known)
          | inr unknown ↦ absurd (ground arith)
        ]
  ]

  guarded-MayPay :
      {Body : Type 0} (request : HttpRequest Body) (serve : World C → HttpResponse × World C)
      (w : World C)
      → (guarded node cfg request serve w).1 ≢ w
      → MayPay node cfg request.authorization
  unfolding guarded
  guarded-MayPay request serve w changed =
      elim (Bool-cases (text_eq request.method (text "POST"))) [
        | inr other ↦ absurd (changed (rw (other, guarded) refl))
        | inl post ↦ elim (Fallible-cases (check_auth cfg request.authorization)) [
          | inr (e, refused) ↦ absurd (changed (rw (post, refused, guarded) refl))
          | inl (u, passed) ↦ check_auth-MayPay request.authorization passed
        ]
      ]

  -- Where the service may be started (`validateServeSafety` passes), a payout request that changes
  -- anything, the state of the outside included, comes from a caller who sent the bearer token, or
  -- the service listens on the loopback alone.
  pub serve_payout-MayPay :
      (request : HttpRequest ExecuteRequest) (w : World C)
      → (serve_payout node cfg request w).1 ≢ w
      → MayPay node cfg request.authorization
  unfolding serve_payout
  serve_payout-MayPay request w = guarded-MayPay request _ w

  -- Where the service may be started, a run request that changes anything, the state of the outside
  -- included, comes from a caller who sent the bearer token, or the service listens on the loopback
  -- alone.
  pub serve_run-MayPay :
      (request : HttpRequest RunRequest) (w : World C)
      → (serve_run node cfg request w).1 ≢ w
      → MayPay node cfg request.authorization
  unfolding serve_run
  serve_run-MayPay request w = guarded-MayPay request _ w
