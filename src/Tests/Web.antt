-- ===== src/Tests/Web.antt =====
-- Request identifiers.
use leaf_flow_chat.Prelude.{
  String, ◌≡◌, ◌≢◌, eq_iff, str_eq, none, some, [], ◌∷◌, arith, if◌then◌else◌,
}
use leaf_flow_chat.Prelude.Dict.{get, string_eq}
use leaf_flow_chat.Errors.{Error, Result, ok, err}
use leaf_flow_chat.Api.Middleware.{Headers, header, sent_id, dispatch, dispatch_tags}

abbrev app : String → Result Headers × String
app cid = (ok [], cid)

-- `str.lower`, on the name that matters
abbrev lower : String → String
lower name = if str_eq name "X-Request-ID" then "x-request-id" else name

abbrev tagged : Headers
tagged = ("x-request-id", "abc") ∷ []

dispatch_tags_example :
    let (r, after) = dispatch lower tagged "f00" app "" in
    (cid : String) × (cid ≢ "")
    × ((own : String) → own ≢ "" → sent_id lower tagged ≡ some own → cid ≡ own)
    × (sent_id lower tagged ≡ none → cid ≡ "f00")
    × (sent_id lower tagged ≡ some "" → cid ≡ "f00")
    × (after ≡ "")
    × ((headers : Headers)
        → (app cid).0 ≡ ok headers
        → (out : Headers) × (r ≡ ok out) × (get (lower header) out ≡ some cid))
    × ((e : Error) → (app cid).0 ≡ err e → r ≡ err e)
dispatch_tags_example =
    dispatch_tags lower tagged "f00" app "" (λ h. ground (arith, h, eq_iff "f00" ""))
