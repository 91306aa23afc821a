-- ===== src/Mcp.antt =====
-- internal/gateway/mcpserver.go: the endpoint that the session's CLI calls for its tools. The body comes
-- read and decoded, ids are texts, and `canonical` is `canonicalJSON`. The lines of `handleMCPToolsCall`
-- are steps, between which others may act on the session table.
mod Tests
pub mod Parked
pub mod Polling
use valyrium.Base.{
  List, Option, String, [], false, get_elem?, if◌then◌else◌, ltb, none, not, some, true, ℕ, ◌*◌,
  ◌+t◌, ◌+◌, ◌=t◌, ◌∷◌,
}
use valyrium.Session.{SessionManager, claim_on, get_session, receive_on}
use valyrium.Session.Calls.{ToolSchema, receive}

pub record ToolsCallParams : Type 0 where
  pub name : String
  pub arguments : String

-- `JSONRPCRequest`: the inner `none` is an id that is absent, or parameters that do not decode.
pub record JsonRpcRequest : Type 0 where
  pub jsonrpc : String
  pub method : String
  pub params : Option ToolsCallParams
  pub id : Option String

pub record JsonRpcError : Type 0 where
  pub code : ℕ
  pub message : String

-- What a request is read as.
pub data Body : Type 0 where
  unreadable not_json : Body
  request : JsonRpcRequest → Body

-- What `tools/list` says of a tool.
pub record Tool : Type 0 where
  pub name : String
  pub description : String
  pub input_schema : String

pub data RpcResult : Type 0 where
  initialized : RpcResult
  tools : List Tool → RpcResult
  text_content : String → RpcResult

-- The answer, or that the request is parked on a call of the session. The codes of errors are
-- without their sign, and a name is one that `%q` only puts in quotes.
pub data Answer : Type 0 where
  refused : ℕ → String → Answer
  no_content : Answer
  rpc_error : JsonRpcError → String → Answer
  rpc_result : RpcResult → String → Answer
  parked : ℕ → ℕ → String → Answer
  polls : Answer

-- How the loop of `handleMCPToolsCall` stands.
pub data Polled : Type 0 where
  found : ℕ → Polled
  missed polling : Polled

unfoldable pub tools_of : List ToolSchema → List Tool
tools_of [] = []
tools_of (t ∷ ts) =
    record { name = t.name; description = t.description; input_schema = t.parameters } ∷ tools_of ts

unfoldable pub handle_tools_list : SessionManager → ℕ → String → Answer
handle_tools_list sm sess id = elim (get_elem? sm.heap sess) [
  | none ↦ rpc_result (tools []) id
  | some s ↦ rpc_result (tools (tools_of s.tools)) id
]

-- The loop of `handleMCPToolsCall`: each round has its time and what others did before it. The
-- deadline is the time after which the next failure is the last.
unfoldable pub poll_claim :
    SessionManager
    → ℕ
    → String
    → String
    → ℕ
    → List ((SessionManager → SessionManager) × ℕ)
    → SessionManager × Polled
poll_claim sm sess name canon_args deadline [] = (sm, polling)
poll_claim sm sess name canon_args deadline ((others, now) ∷ rounds) =
    let (sm', call) = claim_on (others sm) sess name canon_args now in
    elim call [
      | some i ↦ (sm', found i)
      | none ↦ elim (ltb deadline now) [
        | true ↦ (sm', missed)
        | false ↦ poll_claim sm' sess name canon_args deadline rounds
      ]
    ]

unfoldable pub claimed_answer : ℕ → String → Polled → String → Answer
claimed_answer sess name missed id =
    rpc_error
      (record {
        code = 32600;
        message = "tool call \"" +t name +t "\" was never announced on this session";
      })
      id
claimed_answer sess name (found i) id = parked sess i id
claimed_answer sess name polling id = polls

unfoldable pub tools_call_timeout : ℕ
tools_call_timeout = 2 * 1000000000

-- `handleMCPToolsCall`, up to the wait for the result.
unfoldable pub handle_tools_call :
    (String → String)
    → SessionManager
    → ℕ
    → Option ToolsCallParams
    → String
    → ℕ
    → List ((SessionManager → SessionManager) × ℕ)
    → SessionManager × Answer
handle_tools_call canonical sm sess none id start rounds =
    (sm, rpc_error (record { code = 32602; message = "invalid params" }) id)
handle_tools_call canonical sm sess (some params) id start rounds =
    let (sm', call) =
      poll_claim sm sess params.name (canonical params.arguments) (start + tools_call_timeout)
        rounds in
    (sm', claimed_answer sess params.name call id)

-- The wait for the result: `none` while nothing has come.
unfoldable pub unpark : SessionManager → ℕ → ℕ → String → Option (SessionManager × Answer)
unpark sm sess i id = elim (get_elem? sm.heap sess) [
  | none ↦ none
  | some s ↦ elim (get_elem? s.pending i) [
    | none ↦ none
    | some p ↦ elim (receive p.resolver) [
      | none ↦ none
      | some (some result, c) ↦ some (receive_on sm sess i, rpc_result (text_content result) id)
      | some (none, c) ↦ some (
        receive_on sm sess i,
        rpc_error (record { code = 32600; message = "session reaped before a tool result arrived" })
            id,
      )
    ]
  ]
]

-- The switch on the method.
unfoldable pub handle_method :
    (String → String)
    → SessionManager
    → ℕ
    → JsonRpcRequest
    → String
    → ℕ
    → List ((SessionManager → SessionManager) × ℕ)
    → SessionManager × Answer
handle_method canonical sm sess req id start rounds =
    if req.method =t "initialize"
    then (sm, rpc_result initialized id)
    else if req.method =t "tools/list"
    then (sm, handle_tools_list sm sess id)
    else if req.method =t "tools/call"
    then handle_tools_call canonical sm sess req.params id start rounds
    else (sm, rpc_error (record { code = 32601; message = "method not found: " +t req.method }) id)

unfoldable pub handle_request :
    (String → String)
    → SessionManager
    → String
    → JsonRpcRequest
    → ℕ
    → List ((SessionManager → SessionManager) × ℕ)
    → SessionManager × Answer
handle_request canonical sm session_id req start rounds =
    if not (req.jsonrpc =t "2.0")
    then (sm, refused 400 "unsupported jsonrpc version")
    else (elim req.id [
      | none ↦ (sm, no_content)
      | some id ↦ elim (get_session sm session_id) [
        | none ↦ (sm, rpc_error (record { code = 32600; message = "session not found" }) id)
        | some sess ↦ handle_method canonical sm sess req id start rounds
      ]
    ])

unfoldable pub handle_mcp_endpoint :
    (String → String)
    → SessionManager
    → String
    → String
    → Body
    → ℕ
    → List ((SessionManager → SessionManager) × ℕ)
    → SessionManager × Answer
handle_mcp_endpoint canonical sm method session_id body start rounds =
    if not (method =t "POST") then (sm, refused 404 "method not allowed") else (elim body [
      | unreadable ↦ (sm, refused 400 "failed to read body")
      | not_json ↦ (sm, refused 400 "invalid JSON-RPC request")
      | request req ↦ handle_request canonical sm session_id req start rounds
    ])
