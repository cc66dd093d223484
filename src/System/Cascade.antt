-- ===== src/System/Cascade.antt =====
-- sdk/protocol/cascade.go: the detail of a response that asks for confirmation.
use suctl.Prelude.{
  String, List, [], ◌∷◌, Option, none, some, if◌then◌else◌, ◌==◌, ◌≡◌, ◌≢◌, refl, arith, eq_iff, ap,
  ◌∙◌,
}
use suctl.Protocol.{Message, ErrorDetail}
use suctl.Protocol.Values.{Json, Items, Fields, get}

pub record CascadeDetail : Type 0 where
  pub target : String
  pub providers : List String

abbrev pub confirmation_code : String
confirmation_code = "CONFIRMATION_REQUIRED"

-- json.Marshal of a list of texts, and of a detail.
unfoldable pub encode_texts : List String → Items
encode_texts [] = Items.nil
encode_texts (s ∷ ss) = Items.cons (Json.str s) (encode_texts ss)

unfoldable pub encode_detail : CascadeDetail → Json
unfolding encode_texts
encode_detail d = Json.obj (
    Fields.field "target" (Json.str d.target)
      (Fields.field "providers" (Json.arr (encode_texts d.providers)) Fields.end))

-- NewCascadeError
unfoldable pub new_cascade_error : Message → CascadeDetail → ErrorDetail
unfolding encode_detail
new_cascade_error m d = record {
  code = confirmation_code;
  message = m;
  detail = some (encode_detail d);
}

-- json.Unmarshal into a []string: an element that is no text is an error, and null is the empty text.
unfoldable pub decode_texts : Items → Option (List String)
decode_texts Items.nil = some []
decode_texts (Items.cons j js) = elim (decode_texts js) [
  | none ↦ none
  | some ss ↦ elim j [ Json.str s ↦ some (s ∷ ss) | Json.null ↦ some ("" ∷ ss) | _ ↦ none ]
]

abbrev decode_target : Option Json → Option String
decode_target none = some ""
decode_target (some Json.null) = some ""
decode_target (some (Json.str s)) = some s
decode_target (some _) = none

abbrev decode_providers : Option Json → Option (List String)
decode_providers none = some []
decode_providers (some Json.null) = some []
decode_providers (some (Json.arr js)) = decode_texts js
decode_providers (some _) = none

abbrev pub with_providers : String → Option (List String) → Option CascadeDetail
with_providers target none = none
with_providers target (some providers) = some (record { target = target; providers = providers })

-- json.Unmarshal into a CascadeDetail.
unfoldable pub decode_detail : Json → Option CascadeDetail
unfolding get decode_texts
decode_detail (Json.obj m) = elim (decode_target (get "target" m)) [
  | none ↦ none
  | some target ↦ with_providers target (decode_providers (get "providers" m))
]
decode_detail Json.null = some (record { target = ""; providers = [] })
decode_detail _ = none

abbrev named_target : Option CascadeDetail → Option CascadeDetail
named_target none = none
named_target (some d) = if d.target == "" then none else some d

-- AsCascade, on the detail that the error wraps.
unfoldable pub as_cascade : ErrorDetail → Option CascadeDetail
unfolding decode_detail
as_cascade e =
    if e.code == confirmation_code
    then elim e.detail [ none ↦ none | some j ↦ named_target (decode_detail j) ]
    else none

decode_texts-encode_texts : (ss : List String) → decode_texts (encode_texts ss) ≡ some ss
unfolding decode_texts encode_texts
decode_texts-encode_texts [] = refl
decode_texts-encode_texts (s ∷ ss) = rw (decode_texts-encode_texts ss) refl

named_target-some : (d : CascadeDetail) → d.target ≢ "" → named_target (some d) ≡ some d
named_target-some d named = ground (arith, named, eq_iff d.target "")

-- AsCascade reads back the detail of NewCascadeError, if its target is not empty.
pub as_cascade-new_cascade_error :
    (m : Message) (d : CascadeDetail) → d.target ≢ "" → as_cascade (new_cascade_error m d) ≡ some d
unfolding as_cascade new_cascade_error encode_detail decode_detail get
as_cascade-new_cascade_error m d named =
    ap (λ ss. named_target (with_providers d.target ss)) (decode_texts-encode_texts d.providers)
    ∙ named_target-some d named
