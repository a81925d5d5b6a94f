-- ===== src/Api/Middleware.antt =====
-- api/middleware/correlation_id.py: the identifier of a request, in the context variable and in the
-- header of the response. Starlette compares the names of headers in lower case: `lower` is Python's
-- `str.lower`, and the names of a response are those that it keeps, in lower case.
use leaf_flow_chat.Prelude.{
  String, ◌≡◌, ◌≢◌, refl, Option, none, some, [], ◌∷◌, str_eq, arith, if◌then◌else◌, eq_iff, inl,
  inr, Bool-cases, ap, sym, ◌∙◌,
}
use leaf_flow_chat.Prelude.Dict.{Dict, get, put, get-put, string_eq}
use leaf_flow_chat.Errors.{Error, Result, ok, err}

-- `HEADER`
abbrev pub header : String
header = "X-Request-ID"

abbrev pub Headers : Type 0
Headers = Dict String String

-- `headers.get(HEADER) or uuid.uuid4().hex`
abbrev pub correlation_id : Option String → String → String
correlation_id none new = new
correlation_id (some cid) new = if str_eq cid "" then new else cid

-- `response.headers[HEADER] = cid`, under the name in lower case
abbrev pub with_header : String → String → Result Headers → Result Headers
with_header name cid (ok headers) = ok (put name cid headers)
with_header name cid (err e) = err e

module _ (lower : String → String) where
  -- what `request.headers.get` looks in
  abbrev pub lowered : Headers → Headers
  lowered [] = []
  lowered ((name, value) ∷ rest) = (lower name, value) ∷ lowered rest

  -- `request.headers.get(HEADER)`
  abbrev pub sent_id : Headers → Option String
  sent_id request = get (lower header) (lowered request)

  -- `dispatch`: what it returns or raises, and the context variable afterwards. `call_next` is given
  -- the context variable, and returns the headers of the response with what it left there.
  unfoldable pub dispatch :
      Headers → String → (String → Result Headers × String) → String → Result Headers × String
  dispatch request new call_next context =
      let cid = correlation_id (sent_id request) new in
      let (response, left) = call_next cid in (with_header (lower header) cid response, context)

correlation_id-nonempty : (o : Option String) (new : String) → new ≢ "" → correlation_id o new ≢ ""
correlation_id-nonempty none new fresh = fresh
correlation_id-nonempty (some cid) new fresh = λ h. elim (Bool-cases (str_eq cid "")) [
  | inl e ↦ fresh (sym (ap (λ b. if b then new else cid) e) ∙ h)
  | inr e ↦ absurd (ground (arith, sym (ap (λ b. if b then new else cid) e) ∙ h, eq_iff cid ""))
]

-- An identifier that is not empty is the request's own.
correlation_id-own : (own new : String) → own ≢ "" → correlation_id (some own) new ≡ own
correlation_id-own own new given = elim (Bool-cases (str_eq own "")) [
  | inl e ↦ absurd (given ((eq_iff own "").0 e))
  | inr e ↦ rw e refl
]

-- Where new identifiers are not empty, the application sees an identifier that is not empty: the
-- request's own where it has one that is not empty, in a header of whichever case, and a new one
-- where it has none or an empty one. A response carries the same identifier, an exception passes,
-- and the context variable is in both cases what it was before.
pub dispatch_tags :
    (lower : String → String) (request : Headers) (new : String)
    (call_next : String → Result Headers × String) (context : String)
    → new ≢ ""
    → let (r, after) = dispatch lower request new call_next context in
      (cid : String) × (cid ≢ "")
      × ((own : String) → own ≢ "" → sent_id lower request ≡ some own → cid ≡ own)
      × (sent_id lower request ≡ none → cid ≡ new)
      × (sent_id lower request ≡ some "" → cid ≡ new)
      × (after ≡ context)
      × ((headers : Headers)
          → (call_next cid).0 ≡ ok headers
          → (out : Headers) × (r ≡ ok out) × (get (lower header) out ≡ some cid))
      × ((e : Error) → (call_next cid).0 ≡ err e → r ≡ err e)
unfolding dispatch
dispatch_tags lower request new call_next context fresh =
    let cid = correlation_id (sent_id lower request) new in
    let name = lower header in
    (
      cid,
      correlation_id-nonempty (sent_id lower request) new fresh,
      λ own given is. ap (λ o. correlation_id o new) is ∙ correlation_id-own own new given,
      λ is. ap (λ o. correlation_id o new) is,
      λ is. ap (λ o. correlation_id o new) is,
      refl,
      λ headers h. (
        put name cid headers,
        ap (with_header name cid) h,
        get-put name name cid headers ∙ ground (arith, eq_iff name name),
      ),
      λ e h. ap (with_header name cid) h,
    )
