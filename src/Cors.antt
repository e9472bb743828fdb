-- ===== src/Cors.antt =====
-- utils/corsConfig.go: the headers that allow the client's origin. The header of a response is the
-- list of its lines, in order.
use mathlib.Core.List.{append-nil}
use prompt_sdk.Prelude.{
  ℕ, ◌≡◌, ◌↔◌, refl, ◌∙◌, Bool, true, false, not, ◌&&◌, List, [], ◌∷◌, ◌++◌, Text, codes, text_eq,
  text_eq_iff, has_prefix, All, if◌then◌else◌, arith,
}

pub record Exchange : Type 0 where
  pub method : Text
  pub header : List (Text × Text)
  pub aborted : Bool
  pub status : ℕ

-- `Header().Add`
unfoldable pub add_header : Text → Text → List (Text × Text) → List (Text × Text)
add_header k v h = h ++ (k, v) ∷ []

unfoldable pub delete_header : Text → List (Text × Text) → List (Text × Text)
delete_header k [] = []
delete_header k ((j, v) ∷ h) = if text_eq j k then delete_header k h else (j, v) ∷ delete_header k h

-- `Header().Set`
unfoldable pub set_header : Text → Text → List (Text × Text) → List (Text × Text)
unfolding delete_header
set_header k v h = delete_header k h ++ (k, v) ∷ []

unfoldable pub client_origin : Text → Text
client_origin client_host =
    if not (has_prefix client_host (codes "http://"))
      && not (has_prefix client_host (codes "https://"))
    then codes "https://" ++ client_host
    else client_host

-- the headers that are set, in order
abbrev pub fixed_headers : List (Text × Text)
fixed_headers =
    (codes "Access-Control-Max-Age", codes "86400")
    ∷ (codes "Access-Control-Allow-Methods", codes "POST, GET, OPTIONS, PUT, DELETE, UPDATE")
    ∷ (
      codes "Access-Control-Allow-Headers",
      codes "content-Type, content-Length, Accept-Encoding, X-CSRF-Token, Authorization, accept, "
          ++ codes "origin, Cache-Control, X-Requested-With",
    )
    ∷ (codes "Access-Control-Expose-Headers", codes "Content-Length")
    ∷ (codes "Access-Control-Allow-Credentials", codes "true")
    ∷ []

unfoldable pub set_headers : List (Text × Text) → List (Text × Text) → List (Text × Text)
unfolding set_header
set_headers [] h = h
set_headers ((k, v) ∷ lines) h = set_headers lines (set_header k v h)

unfoldable pub cors_header : Text → List (Text × Text) → List (Text × Text)
unfolding set_headers add_header
cors_header origin h =
    set_headers fixed_headers (add_header (codes "Access-Control-Allow-Origin") origin h)

-- A preflight request is answered at once.
unfoldable pub cors : Text → Exchange → Exchange
unfolding cors_header client_origin
cors client_host x =
    if text_eq x.method (codes "OPTIONS")
    then record x {
      header = cors_header (client_origin client_host) x.header;
      aborted = true;
      status = 200;
    }
    else record x { header = cors_header (client_origin client_host) x.header }

-- The lines of a header under one key.
abbrev pub values : Text → List (Text × Text) → List Text
values k [] = []
values k ((j, v) ∷ h) = if text_eq j k then v ∷ values k h else values k h

values-append : (k : Text) (g h : List (Text × Text)) → values k (g ++ h) ≡ values k g ++ values k h
values-append k [] h = refl
values-append k ((j, v) ∷ g) h = ground (arith, values-append k g h)

values-delete_header :
    (k j : Text) (h : List (Text × Text))
    → text_eq j k ≡ false
    → values k (delete_header j h) ≡ values k h
unfolding delete_header
values-delete_header k j [] e = refl
values-delete_header k j ((i, v) ∷ h) e =
    ground (arith, text_eq_iff i j, text_eq_iff i k, text_eq_iff j k, values-delete_header k j h e)

values-set_header :
    (k j v : Text) (h : List (Text × Text))
    → text_eq j k ≡ false
    → values k (set_header j v h) ≡ values k h
unfolding set_header
values-set_header k j v h e =
    values-append k (delete_header j h) ((j, v) ∷ [])
    ∙ rw e (append-nil _)
    ∙ values-delete_header k j h e

values-set_headers :
    (k : Text) (lines h : List (Text × Text))
    → All (λ (line : Text × Text). text_eq line.0 k ≡ false) lines
    → values k (set_headers lines h) ≡ values k h
unfolding set_headers
values-set_headers k [] h away = refl
values-set_headers k ((j, v) ∷ lines) h away =
    values-set_headers k lines (set_header j v h) away.1 ∙ values-set_header k j v h away.0

others :
    All
      (λ (line : Text × Text). text_eq line.0 (codes "Access-Control-Allow-Origin") ≡ false)
      fixed_headers
unfolding text_eq
others = (refl, (refl, (refl, (refl, (refl, tt)))))

origin_lines :
    (origin : Text) (h : List (Text × Text))
    → values (codes "Access-Control-Allow-Origin") (cors_header origin h)
      ≡ values (codes "Access-Control-Allow-Origin") h ++ origin ∷ []
unfolding cors_header add_header text_eq
origin_lines origin h =
    let k = codes "Access-Control-Allow-Origin" in
    values-set_headers k fixed_headers (h ++ (k, origin) ∷ []) others
    ∙ values-append k h ((k, origin) ∷ [])

-- The response allows the origins that it allowed before and that of the client, with a scheme; and
-- exactly a request with OPTIONS is aborted here.
pub cors-values :
    (client_host : Text) (x : Exchange)
    → x.aborted ≡ false
    → (values (codes "Access-Control-Allow-Origin") (cors client_host x).header
        ≡ values (codes "Access-Control-Allow-Origin") x.header ++ client_origin client_host ∷ [])
      × (((cors client_host x).aborted ≡ true) ↔ (x.method ≡ codes "OPTIONS"))
unfolding cors
cors-values client_host x open_ = ground (
  arith,
  text_eq_iff x.method (codes "OPTIONS"),
  origin_lines (client_origin client_host) x.header,
)
