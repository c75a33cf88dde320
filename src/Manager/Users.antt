-- ===== src/Manager/Users.antt =====
-- The requests of web/src/lib/bbgo/manager.ts on strategies, users, instances, backtests, credentials,
-- notifications and markets. A user, strategy or job id is put into the path as it is.
use bbgo_sass.Prelude.{ℕ, [], ◌∷◌, ◌++◌, Option, none, some, ◌==◌, if◌then◌else◌}
use bbgo_sass.Prelude.Text.{codes}
use bbgo_sass.Prelude.Uri.{Params, set_param, set_if, query_text, encode_uri_component}
use bbgo_sass.Manager.{Text, Mode, mode_text, Method, post, patch, delete, Request, get_request}

abbrev pub send : Method → Text → Request
send method path = record { method = method; path = path; body = none }

abbrev pub users : Text → Text
users user_id = codes "/users/" ++ user_id

unfoldable pub fetch_user_strategies : Text → Request
fetch_user_strategies user_id = get_request (users user_id ++ codes "/strategies")

unfoldable pub delete_strategy : (user_id strategy_id : Text) → Request
delete_strategy user_id strategy_id =
    send delete (users user_id ++ codes "/strategies/" ++ strategy_id)

abbrev pub query_suffix : Text → Text
query_suffix [] = []
query_suffix (c ∷ qs) = b'?' ∷ c ∷ qs

abbrev pub mode_if : Option Mode → Params
mode_if none = []
mode_if (some m) = set_param (codes "mode") (mode_text m) []

unfoldable pub fetch_bot_list : Text → Option Mode → Request
fetch_bot_list user_id mode =
    get_request (users user_id ++ codes "/bots" ++ query_suffix (query_text (mode_if mode)))

unfoldable pub fetch_bot_detail : (user_id bot_id : Text) → Request
fetch_bot_detail user_id bot_id = get_request (users user_id ++ codes "/bots/" ++ bot_id)

unfoldable pub start_user : Text → Mode → Request
start_user user_id mode = send post (users user_id ++ codes "/start?mode=" ++ mode_text mode)

unfoldable pub stop_user : Text → Mode → Request
stop_user user_id mode = send post (users user_id ++ codes "/stop?mode=" ++ mode_text mode)

unfoldable pub start_instance : (user_id instance_id : Text) → Request
start_instance user_id instance_id =
    send post (
      users user_id
      ++ (codes "/instances/" ++ (encode_uri_component instance_id ++ codes "/start")))

unfoldable pub stop_instance : (user_id instance_id : Text) → Request
stop_instance user_id instance_id =
    send post (
      users user_id ++ (codes "/instances/" ++ (encode_uri_component instance_id ++ codes "/stop")))

unfoldable pub get_backtest_job : Text → Request
get_backtest_job job_id = get_request (codes "/backtest/jobs/" ++ job_id)

unfoldable pub list_backtest_jobs : Request
list_backtest_jobs = get_request (codes "/backtest/jobs")

-- A request with a body, for what JSON.stringify makes of the data.
module _ {Data : Type 0} (stringify : Data → Text) where
  abbrev pub send_data : Method → Text → Data → Request
  send_data method path value = record {
    method = method;
    path = path;
    body = some (stringify value);
  }

  unfoldable pub create_strategy : Text → Data → Request
  create_strategy user_id value = send_data post (users user_id ++ codes "/strategies") value

  unfoldable pub update_strategy : (user_id strategy_id : Text) → Data → Request
  update_strategy user_id strategy_id value =
      send_data patch (users user_id ++ codes "/strategies/" ++ strategy_id) value

  unfoldable pub run_backtest : Data → Request
  run_backtest value = send_data post (codes "/backtest") value

  unfoldable pub submit_backtest : Data → Request
  submit_backtest value = send_data post (codes "/backtest/submit") value

  unfoldable pub create_credential : Data → Request
  create_credential value = send_data post (codes "/credentials") value

  unfoldable pub create_notification_config : Data → Request
  create_notification_config value = send_data post (codes "/notifications/config") value

unfoldable pub fetch_credentials : Text → Request
fetch_credentials user_id = get_request (codes "/credentials")

unfoldable pub delete_credential : (id user_id : Text) → Request
delete_credential id user_id = send delete (codes "/credentials/" ++ id)

unfoldable pub fetch_notification_configs : Request
fetch_notification_configs = get_request (codes "/notifications/config")

unfoldable pub delete_notification_config : Text → Request
delete_notification_config id = send delete (codes "/notifications/config/" ++ id)

unfoldable pub test_notification : Request
test_notification = send post (codes "/notifications/test")

abbrev pub markets : Text → Text
markets exchange = codes "/markets/" ++ encode_uri_component exchange

unfoldable pub fetch_market_symbols : Text → Request
fetch_market_symbols exchange = get_request (markets exchange ++ codes "/symbols")

unfoldable pub fetch_market_ticker : (exchange symbol : Text) → Option Text → Request
fetch_market_ticker exchange symbol session =
    let params = set_if (codes "session") session (set_param (codes "symbol") symbol []) in
    get_request (markets exchange ++ codes "/ticker?" ++ query_text params)

-- `if (n) params.set(k, String(n))`
abbrev pub set_number : (ℕ → Text) → Text → Option ℕ → Params → Params
set_number number_text k none ps = ps
set_number number_text k (some n) ps = if n == 0 then ps else set_param k (number_text n) ps

unfoldable pub fetch_market_klines :
    (number_text : ℕ → Text) (exchange symbol : Text) (interval : Option Text)
    → (limit start_time end_time : Option ℕ) (session : Option Text) → Request
fetch_market_klines number_text exchange symbol interval limit start_time end_time session =
    let set = set_number number_text in
    let params = set_if (codes "session") session (
      set (codes "end_time") end_time (
        set (codes "start_time") start_time (
          set (codes "limit") limit
            (set_if (codes "interval") interval (set_param (codes "symbol") symbol []))))) in
    get_request (markets exchange ++ codes "/klines?" ++ query_text params)
