-- ===== src/Http/Replies.antt =====
-- internal/gateway/server.go: the body of a request, the error body, and how `ListenAndServe` ends.
use valyrium.Base.{List, Option, String, if◌then◌else◌, length, ltb, none, some, ℕ, ◌+t◌}

-- `readBody`: at most so many bytes.
unfoldable pub read_body : ℕ → List ℕ → Option (List ℕ)
read_body max_size sent = if ltb max_size (length sent) then none else some sent

-- `ErrorResponse`.
pub record ErrorResponse : Type 0 where
  pub message : String
  pub type : String
  pub code : Option String
  pub param : Option String

-- `sendError`: the status and the body.
unfoldable pub send_error : ℕ → String → String → ℕ × ErrorResponse
send_error status message err_type =
    (status, record { message = message; type = err_type; code = none; param = none })

-- The last answer of `ServeHTTP`.
unfoldable pub unrouted : String → String → ℕ × ErrorResponse
unrouted method path =
    send_error 404 ("no route for " +t (method +t (" " +t path))) "not_found_error"

-- How `srv.Serve` ends.
pub data ServeError : Type 0 where
  server_closed : ServeError
  serve_failed : String → ServeError

-- `ListenAndServe`: the address, and the error of the listener or of `Serve`; the goroutine that waits
-- for a signal calls `Shutdown`.
unfoldable pub listen_addr : (ℕ → String) → String → ℕ → String
listen_addr decimal host port = host +t (":" +t decimal port)

unfoldable pub serve_error : ServeError → Option String
serve_error server_closed = none
serve_error (serve_failed e) = some e

unfoldable pub listen_and_serve : Option String → ServeError → Option String
listen_and_serve none ended = serve_error ended
listen_and_serve (some e) ended = some e
