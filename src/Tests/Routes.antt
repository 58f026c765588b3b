-- ===== src/Tests/Routes.antt =====
-- The routes, with a bearer token set.
use wolochain.Prelude.{◌≡◌, ◌≢◌, refl, ap, [], ◌∷◌, some}
use wolochain.Text.{text}
use wolochain.Fallible.{ok}
use wolochain.Config.{Config}
use wolochain.Request.{ExecuteRequest}
use wolochain.Run.{RunRequest}
use wolochain.Http.{HttpRequest, validate_serve_safety, serve_payout, serve_run}
use wolochain.Http.Auth.{MayPay, serve_payout-MayPay, serve_run-MayPay}
use wolochain.Tests.{chain, config, request, run_request, empty_world, program_runs}

abbrev secured : Config
secured = record config { auth_token = b't' ∷ [] }

secured_is_safe : validate_serve_safety chain secured ≡ ok tt
unfolding program_runs
secured_is_safe = refl

abbrev payout_post : HttpRequest ExecuteRequest
payout_post = record { method = text "POST"; authorization = text "Bearer t"; body = some request }

abbrev run_post : HttpRequest RunRequest
run_post = record { method = text "POST"; authorization = text "Bearer t"; body = some run_request }

payout_moves : (serve_payout chain secured payout_post empty_world).1 ≢ empty_world
unfolding program_runs
payout_moves e = absurd (cc (ap (λ w. w.sent) e))

serve_payout-MayPay_example : MayPay chain secured payout_post.authorization
serve_payout-MayPay_example =
    serve_payout-MayPay chain secured secured_is_safe payout_post empty_world payout_moves

run_moves : (serve_run chain secured run_post empty_world).1 ≢ empty_world
unfolding program_runs
run_moves e = absurd (cc (ap (λ w. w.sent) e))

serve_run-MayPay_example : MayPay chain secured run_post.authorization
serve_run-MayPay_example =
    serve_run-MayPay chain secured secured_is_safe run_post empty_world run_moves
