-- ===== src/Relay/Call.antt =====
-- internal/relay/relay.go: the calls of the server's HTTP API. What comes back is an argument;
-- JSON and base64 are parameters.
use void_bridge.Base.{
  ℕ, not, ◌&&◌, [], Option, none, some, Str, str_eq, nat_eq, ◌==◌, leb, if◌then◌else◌, codes,
}
use void_bridge.Protocol.Message.{Identity, version as our_version}
use void_bridge.Server.Api.{Info, Credentials, LoginResult}

pub data RelayError : Type 0 where
  unauthorized insecure unreachable bad_request not_voidbridge unreadable connection_lost :
      RelayError
  other_protocol : ℕ → RelayError
  server_says : Str → RelayError

pub data Result {ℓ} (A : Type ℓ) : Type ℓ where
  ok : A → Result A
  err : RelayError → Result A

-- What the HTTP client gives: no request, no answer, or the status with its text, the error that
-- the body names, and the body.
pub record Answer : Type 0 where
  pub status : ℕ
  pub status_text : Str
  pub error : Str
  pub body : Str

pub data Reply : Type 0 where
  no_request refused_insecure no_answer : Reply
  answered : Answer → Reply

abbrev pub said : Answer → Str
said a = if a.error == [] then a.status_text else a.error

-- `do`, up to the decoding of the body.
unfoldable pub outcome : Str → Reply → Result Str
outcome path no_request = err bad_request
outcome path refused_insecure = err insecure
outcome path no_answer = err unreachable
outcome path (answered a) =
    if leb 300 a.status
    then (if (a.status == 401) && not (path == codes "/api/login")
        then err unauthorized
        else err (server_says (said a)))
    else ok a.body

abbrev pub decoded {ℓ} : {A : Type ℓ} → (Str → Option A) → Result Str → Result A
decoded decode (err e) = err e
decoded decode (ok body) = elim (decode body) [ none ↦ err unreadable | some a ↦ ok a ]

unfoldable pub call {ℓ} : {A : Type ℓ} → (Str → Option A) → Str → Reply → Result A
unfolding outcome
call decode path r = decoded decode (outcome path r)

abbrev pub checked_info : Result Info → Result Info
checked_info (err e) = err e
checked_info (ok i) =
    if not (i.server == codes "voidbridge")
    then err not_voidbridge
    else if not (i.protocol == our_version)
    then err (other_protocol i.protocol)
    else ok i

-- `Info`
unfoldable pub info : (Str → Option Info) → Reply → Result Info
unfolding call
info decode r = checked_info (call decode (codes "/api/info") r)

unfoldable pub creds : (Str → Str) → Str → Str → Str → Identity → Credentials
creds encode64 username auth invite me = record {
  username = username;
  auth_key = encode64 auth;
  invite = invite;
  device_id = me.id;
  device_name = me.name;
  device_kind = me.kind;
}

pub record Api : Type 0 where
  pub base : Str
  pub token : Str

-- `Register` and `Login` keep the token that they get.
abbrev pub with_token : Api → Result LoginResult → Api × Result LoginResult
with_token a (err e) = (a, err e)
with_token a (ok r) = (record a { token = r.token }, ok r)

unfoldable pub register : (Str → Option LoginResult) → Reply → Api → Api × Result LoginResult
unfolding call
register decode r a = with_token a (call decode (codes "/api/register") r)

unfoldable pub login : (Str → Option LoginResult) → Reply → Api → Api × Result LoginResult
unfolding call
login decode r a = with_token a (call decode (codes "/api/login") r)
