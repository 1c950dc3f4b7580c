-- ===== src/Rest.antt =====
-- The REST client of helper/helper.go: GetResponse makes one HTTP request, and RestRetryer repeats
-- it. The network is a parameter, `Net`.

pub mod Laws
use Prim.Native.String.{◌++◌}
use cbdynclusterd.Prelude.{
  ℕ, zero, suc, String, Option, none, some, List, [], ◌∷◌, eqb, if◌then◌else◌, ◌==◌,
}
use cbdynclusterd.Prelude.Text.{show_nat, itoa}
use cbdynclusterd.Prelude.Int.{ℤ}
use cbdynclusterd.Prelude.Result.{Error, failure, stop, Result, ok, err, panic}
use cbdynclusterd.Prelude.Exec.{Exec, pure, lift, raise, ◌>>=◌}

pub record Cred : Type 0 where
  pub username : String
  pub password : String
  pub hostname : String
  pub port : ℤ

pub record RestCall : Type 0 where
  pub expected_code : ℕ
  pub retry_on_code : ℕ
  pub method : String
  pub path : String
  pub cred : Cred
  pub body : String
  pub header : List (String × String)
  pub content_type : String

-- `basic_auth` is the text that the Authorization header carries in base 64.
pub record HttpRequest : Type 0 where
  pub method : String
  pub url : String
  pub basic_auth : String
  pub headers : List (String × String)
  pub body : String

-- `body` is what ioutil.ReadAll read, up to its error if it has one.
pub record HttpResponse : Type 0 where
  pub status_code : ℕ
  pub body : String
  pub read_error : Option Error

-- The state of the world outside, what http.Client.Do does with a request under the time limit, and
-- %v of an *http.Request. An error of http.NewRequest counts as one of `send`.
pub record Net : Type 1 where
  pub World : Type 0
  pub send : HttpRequest → Exec World HttpResponse
  pub show_request : HttpRequest → String

-- req.Header.Set(k, v)
abbrev set_header : List (String × String) → String × String → List (String × String)
set_header [] h = h ∷ []
set_header ((k, v) ∷ hs) h = if k == h.0 then h ∷ hs else (k, v) ∷ set_header hs h

abbrev set_headers : List (String × String) → List (String × String) → List (String × String)
set_headers hs [] = hs
set_headers hs (h ∷ more) = set_headers (set_header hs h) more

unfoldable pub http_request : RestCall → HttpRequest
http_request params = record {
  method = params.method;
  url = "http://" ++ (params.cred.hostname ++ (":" ++ (itoa params.cred.port ++ params.path)));
  basic_auth = params.cred.username ++ (":" ++ params.cred.password);
  headers =
      set_headers
        ((
          "Content-Type",
          if params.content_type == ""
              then "application/x-www-form-urlencoded"
              else params.content_type,
        )
          ∷ [])
        params.header;
  body = params.body;
}

abbrev body_or_error : HttpResponse → Result String
body_or_error res = elim res.read_error [ none ↦ ok res.body | some e ↦ err e ]

module _ (net : Net) where
  -- The switch on the status code. Any other code than the two is an error that is not retried.
  unfoldable pub read_response : RestCall → HttpResponse → Result String
  read_response params res =
      if eqb res.status_code params.expected_code
      then body_or_error res
      else if eqb res.status_code params.retry_on_code
      then err (failure res.body)
      else err (
          stop (
            failure (
              "Request:"
              ++ (net.show_request (http_request params)
                  ++ (",PostBody:"
                      ++ (params.body
                          ++ (",Response:" ++ (show_nat res.status_code ++ (":" ++ res.body)))))))))

  unfoldable pub get_response : RestCall → Exec net.World String
  get_response params = do res ← net.send (http_request params); lift (read_response params res)

-- `if s, ok := err.(stop); ok { return "", s.error }`
unfoldable pub unstop {ℓ} : {A : Type ℓ} → Result A → Result A
unstop (ok a) = ok a
unstop (err (failure s)) = err (failure s)
unstop (err (stop e)) = err e
unstop panic = panic

-- What follows a failed attempt: `again` if the error may be retried.
abbrev pub retry_or : {S : Type 0} → Exec S String → Result String → Exec S String
retry_or again (ok body) = pure body
retry_or again (err (failure s)) = again
retry_or again (err (stop e)) = raise e
retry_or again panic = lift panic

-- The function is called once, and again while it fails with an error that may be retried, `retry`
-- times in all.
unfoldable pub rest_retryer :
    {S : Type 0} → ℕ → (RestCall → Exec S String) → RestCall → Exec S String
unfolding unstop
rest_retryer zero fn params s = (unstop (fn params s).0, (fn params s).1)
rest_retryer (suc retry) fn params s = elim retry [
  | zero ↦ (unstop (fn params s).0, (fn params s).1)
  | suc r ↦ let (result, s') = fn params s in retry_or (rest_retryer retry fn params) result s'
]

-- helper.RestRetry
abbrev pub rest_retry : ℕ
rest_retry = 60
