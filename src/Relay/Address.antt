-- ===== src/Relay/Address.antt =====
-- internal/relay/relay.go: the address of a server, and where a client may connect. Go's parser of
-- addresses is a parameter.
use void_bridge.Base.{
  ℕ, Bool, true, false, not, ◌&&◌, ◌||◌, [], ◌∷◌, ◌++◌, Option, none, some, Str, str_eq, nat_eq,
  ◌==◌, if◌then◌else◌, codes, decimal64,
}
use void_bridge.Protocol.Code.{trim_space, trim_right, trim_left}
use void_bridge.Server.Api.{NetLibrary, cut_prefix, private_ip}

abbrev pub server_port : ℕ
server_port = 47831

-- Go's `url.URL`; `host` has the port, `others` is all that is not named here.
pub record Url : Type 0 where
  pub scheme : Str
  pub host : Str
  pub hostname : Str
  pub port : Str
  pub path : Str
  pub others : Str

pub record UrlLibrary : Type 0 where
  pub parse : Str → Option Url
  pub print : Url → Str
  pub join_host_port : Str → Str → Str

abbrev pub is_some {ℓ} : {A : Type ℓ} → Option A → Bool
is_some none = false
is_some (some a) = true

-- `strings.HasPrefix` and `strings.Contains`
abbrev pub has_prefix : Str → Str → Bool
has_prefix p s = is_some (cut_prefix p s)

unfoldable pub contains : Str → Str → Bool
unfolding cut_prefix
contains p [] = has_prefix p []
contains p (c ∷ s) = has_prefix p (c ∷ s) || contains p s

abbrev pub is_slash : ℕ → Bool
is_slash c = c == b'/'

unfoldable pub trimmed : Str → Str
unfolding trim_space trim_right trim_left
trimmed s = trim_space (trim_right is_slash (trim_space s))

unfoldable pub with_scheme : Str → Str
unfolding contains
with_scheme s = if contains (codes "://") s then s else codes "http://" ++ s

abbrev pub is_web : Url → Bool
is_web u =
    not ((u.host == []) || (not (u.scheme == codes "http") && not (u.scheme == codes "https")))

pub data AddressError : Type 0 where
  empty_address : AddressError
  invalid_address : Str → AddressError

pub data Normalized : Type 0 where
  base : Str → Normalized
  bad : AddressError → Normalized

module _ (lib : UrlLibrary) where
  abbrev pub with_port : Url → Url
  with_port u =
      if (u.port == []) && (u.scheme == codes "http")
      then record u { host = lib.join_host_port u.hostname (decimal64 server_port) }
      else u

  abbrev pub normalized : Str → Option Url → Normalized
  normalized s none = bad (invalid_address s)
  normalized s (some u) =
      if is_web u
      then base (lib.print (record (with_port u) { path = trim_right is_slash u.path }))
      else bad (invalid_address s)

  -- `NormalizeURL`
  unfoldable pub normalize_url : Str → Normalized
  unfolding trimmed with_scheme trim_right
  normalize_url s =
      let t = trimmed s in
      if t == [] then bad empty_address else normalized (with_scheme t) (lib.parse (with_scheme t))

-- The check of `clientFor` on the address that is dialled, for a server with this base.
unfoldable pub may_dial : NetLibrary → Str → Str → Bool
unfolding cut_prefix private_ip
may_dial net server address =
    if has_prefix (codes "http://") server
    then elim (net.split_host address) [ none ↦ false | some host ↦ private_ip (net.parse_ip host) ]
    else true
