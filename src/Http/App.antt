-- ===== src/Http/App.antt =====
-- What app.js does around the routers, and middleware/correlationId.js.
use node_chat_api.Prelude.{String, Option, some, get_or}
use node_chat_api.Http.{Reply, failure}
use node_chat_api.Http.AuthController.{given}

-- The answer of the last middleware but one, to a request that no route has taken.
unfoldable pub route_not_found : {A : Type 0} → Reply A
route_not_found = record {
  status = 404;
  body = some (failure "Route not found." (some "NOT_FOUND") (some 404));
}

-- `req.headers['x-correlation-id'] || uuidv4()`, which goes to the log and to the reply's header.
pub correlation_id : Option String → String → String
correlation_id header uuid = get_or (given header) uuid
