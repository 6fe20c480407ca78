-- ===== src/Ledger/Handler.antt =====
-- services/ledger-service/internal/handler/ledger_handler.go and json.go, and the middleware that
-- cmd/api/main.go puts before the handlers.
use finflow.Base.{String, List, if◌then◌else◌}
use finflow.Go.Environment.{Environment}
use finflow.Go.Errors.{Sentinel, Result, ok, err, is}
use finflow.Postgres.{World}
use finflow.Http.{Headers, Request, Response, payload, Handler, write_json, write_request_error}
use finflow.Http.Security.{security_headers, internal_service_token}
use finflow.Ledger.Model.{Balance, Entry}
use finflow.Ledger.Repository.{LedgerRepository}
use finflow.Ledger.Service as Service

-- The JSON objects that the two routes answer with.
pub data LedgerView : Type 0 where
  balances : List Balance → LedgerView
  entries : List Entry → LedgerView

-- `RegisterRoutes`
pub data LedgerEndpoint : Type 0 where
  balances_endpoint entries_endpoint : LedgerEndpoint

module _ (headers : Headers) (r : Request) where
  unfoldable pub balances_response : Result (List Balance) → Response LedgerView
  balances_response (err e) = write_request_error headers r 500 "could not list ledger balances"
  balances_response (ok found) = write_json headers 200 (payload (LedgerView.balances found))

  unfoldable pub entries_response : Result (List Entry) → Response LedgerView
  entries_response (err e) =
      if is e Sentinel.validation
      then write_request_error headers r 400 "invalid payment id"
      else write_request_error headers r 500 "could not list ledger entries"
  entries_response (ok found) = write_json headers 200 (payload (LedgerView.entries found))

module _ (env : Environment) {T : Type 0} (repository : LedgerRepository T) where
  unfoldable pub list_balances : Handler (World T) LedgerView
  unfolding balances_response
  list_balances headers r w =
      let (result, w') = Service.list_balances env repository w in
      (balances_response headers r result, w')

  unfoldable pub list_payment_entries : Handler (World T) LedgerView
  unfolding entries_response
  list_payment_entries headers r w =
      let (result, w') =
        Service.list_entries_by_payment_id env repository (r.url_param "payment_id") w in
      (entries_response headers r result, w')

  unfoldable pub ledger_endpoint : LedgerEndpoint → Handler (World T) LedgerView
  unfolding list_balances list_payment_entries
  ledger_endpoint LedgerEndpoint.balances_endpoint = list_balances
  ledger_endpoint LedgerEndpoint.entries_endpoint = list_payment_entries

  -- A route of the API with its middleware.
  unfoldable pub ledger_api : String → LedgerEndpoint → Handler (World T) LedgerView
  unfolding security_headers internal_service_token ledger_endpoint
  ledger_api token endpoint =
      security_headers (internal_service_token env token (ledger_endpoint endpoint))
