-- ===== src/McpRoute/Transport.antt =====
-- kei/mcproute.py: `Client._send`, which chooses what a request is handed to. What httpx does with a
-- request, its proxies included, is given from outside, and so are URLs, IP addresses, and the state of
-- the file system.
pub mod Local
use Prim.Native.Char.{Char, code}
use agentware.Prelude.{
  ℕ, ◌/◌, ◌%◌, String, Bool, true, false, not, ◌&&◌, ◌||◌, Option, none, some, List, [], ◌∷◌, ◌++◌,
  Dict, lookup, default, nat_eq, ◌<+>◌, ◌==◌, if◌then◌else◌,
}
use agentware.Prelude.Value.{Value}
use agentware.Prelude.Exec.{
  Exec, Result, ok, raise, Error, throw, lift, pure, ◌>>=◌, mcp_route_error, route_not_local,
  os_error, value_error, other,
}

pub record Response : Type 0 where
  pub status_code : ℕ
  pub content_type : String
  pub content : String

-- What a client of httpx is asked with: the transport of a test, a base URL, a socket, or the URL of a
-- loopback host as the code writes it, less the path of the request.
pub data Target : Type 0 where
  injected : Target
  base : String → Target
  socket : String → Target
  loopback_url : String → Target

-- The exceptions of a request. `connect` and `remote_protocol` are, like `http`, an `HTTPError` of
-- httpx; `unlisted` is any other, as `InvalidURL`, which is none and no `OSError` either.
pub data Failure : Type 0 where
  connect remote_protocol http os unlisted : String → Failure

pub data Posted : Type 0 where
  answered : Response → Posted
  failed : Failure → Posted

-- The body is a JSON value.
pub record Request : Type 0 where
  pub url_path : String
  pub headers : Dict String
  pub body : Value

pub record Stat : Type 0 where
  pub is_socket : Bool
  pub uid : ℕ
  pub mode : ℕ

-- `loopback` is `ip_address(host).is_loopback`, or `none` for `ValueError`; `parse_url` gives the host,
-- which may be empty, and the scheme.
pub record Outside {ℓ} (W : Type ℓ) : Type ℓ where
  pub post : Target → Request → W → Posted × W
  pub lstat : W → String → Option Stat
  pub own_uid : Option ℕ
  pub loopback : String → Option Bool
  pub parse_url : String → Result (String × String)
  pub environ : W → Dict String
  pub now : W → ℕ
  pub quote : String → String

pub record Client : Type 0 where
  pub slug : String
  pub base_url : String
  pub socket_path : Option String
  pub env : Option (Dict String)
  pub has_transport : Bool

-- `Client(slug, …)`, less its timeouts
unfoldable pub new_client :
    (slug base_url : String)
    → Option String
    → Option (Dict String)
    → (has_transport : Bool) → Result Client
new_client slug base_url socket_path env has_transport =
    if slug == ""
    then raise (value_error "slug is required")
    else ok (record {
      slug = slug;
      base_url = base_url;
      socket_path = socket_path;
      env = env;
      has_transport = has_transport;
    })

abbrev pub socket_path_env : String
socket_path_env = "KEI_RUNTIME_SOCKET_PATH"

-- `mode & 0o022`
abbrev pub others_write : ℕ → Bool
others_write mode = not (nat_eq (mode / 2 % 2) 0) || not (nat_eq (mode / 16 % 2) 0)

abbrev pub safe_owner : Option ℕ → Stat → Bool
safe_owner none st = true
safe_owner (some uid) st = nat_eq st.uid uid || not (others_write st.mode)

abbrev pub safe_stat : Option ℕ → Option Stat → Bool
safe_stat uid none = false
safe_stat uid (some st) = st.is_socket && safe_owner uid st

-- `s.rstrip("/")`
unfoldable pub rstrip_slash : String → String
rstrip_slash String.[] = ""
rstrip_slash (String.◌∷◌ c s) =
    let rest = rstrip_slash s in
    if (rest == "") && nat_eq (code c) 47 then "" else String.◌∷◌ c rest

-- `except httpx.HTTPError`, where the transport is chosen by the caller
abbrev pub direct_error : Failure → Error
direct_error (connect text) = mcp_route_error ("mcp route: transport: " <+> text)
direct_error (remote_protocol text) = mcp_route_error ("mcp route: transport: " <+> text)
direct_error (http text) = mcp_route_error ("mcp route: transport: " <+> text)
direct_error (os text) = os_error text
direct_error (unlisted text) = other text

abbrev pub direct : Posted → Result Response
direct (answered response) = ok response
direct (failed failure) = raise (direct_error failure)

abbrev pub discovery_error : Option String → Error
discovery_error none = mcp_route_error "mcp route: no transport available"
discovery_error (some text) = mcp_route_error ("mcp route: transport: " <+> text)

-- What discovery does with a failure: it goes on with its text, or raises any other error.
abbrev pub retried : Failure → Option String
retried (connect text) = some text
retried (remote_protocol text) = some text
retried (os text) = some text
retried (http text) = none
retried (unlisted text) = none

abbrev pub failure_text : Failure → String
failure_text (connect text) = text
failure_text (remote_protocol text) = text
failure_text (os text) = text
failure_text (http text) = text
failure_text (unlisted text) = text

-- `f"http://{host}:{port}"`, where an IPv6 address gets no brackets
abbrev pub at_port : String → Target
at_port host = loopback_url ("http://" <+> host <+> ":8080")

module _ {ℓ} {W : Type ℓ} (out : Outside W) where
  abbrev pub source : Client → W → Dict String
  source c w = default (out.environ w) c.env

  -- `self._socket_path or source.get(SOCKET_PATH_ENV, "")`
  abbrev pub socket_path : Client → W → String
  socket_path c w =
      let path = default "" c.socket_path in
      if path == "" then default "" (lookup socket_path_env (source c w)) else path

  unfoldable pub validate_socket : W → String → Bool
  validate_socket w path = safe_stat out.own_uid (out.lstat w path)

  unfoldable pub is_loopback : String → Bool
  is_loopback host = default false (out.loopback host)

  abbrev pub post_direct : Target → Request → Exec W Response
  post_direct target req w = let (posted, w') = out.post target req w in (direct posted, w')

  -- the targets in order, with the error of the last one that failed
  unfoldable pub discover : List Target → Option String → Request → Exec W Response
  discover [] last_error req w = (raise (discovery_error last_error), w)
  discover (target ∷ targets) last_error req w =
      let (posted, w') = out.post target req w in
      elim posted [
        | answered response ↦ (ok response, w')
        | failed failure ↦ elim (retried failure) [
          | some text ↦ discover targets (some text) req w'
          | none ↦ (raise (other (failure_text failure)), w')
        ]
      ]

  unfoldable pub targets : Client → W → List Target
  unfolding validate_socket
  targets c w =
      let path = socket_path c w in
      let hosts = at_port "127.0.0.1" ∷ at_port "::1" ∷ [] in
      if not (path == "") && validate_socket w path then socket path ∷ hosts else hosts

  -- a host that is a name, or an address elsewhere
  abbrev pub is_remote : String × String → Bool
  is_remote (host, scheme) = not (host == "") && not (is_loopback host) && not (scheme == "unix")

  abbrev pub send_base : Client → Request → Exec W Response
  send_base c req = do
    url ← lift (out.parse_url c.base_url)
    elim (is_remote url) [
      | true ↦ throw (route_not_local "mcp route: the route host is not a loopback address")
      | false ↦ post_direct (base (rstrip_slash c.base_url)) req
    ]

  unfoldable pub send : Client → Request → Exec W Response
  unfolding targets
  send c req w = elim c.has_transport [
    | true ↦ post_direct injected req w
    | false ↦ elim (c.base_url == "") [
      | true ↦ discover (targets c w) none req w
      | false ↦ send_base c req w
    ]
  ]
