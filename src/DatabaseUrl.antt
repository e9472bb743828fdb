-- ===== src/DatabaseUrl.antt =====
-- utils/getDatabaseUrl.go, with what it uses of net/url: the escaping of the parts of a URL,
-- `URL.String` and `Values.Encode`. The environment is a parameter.
pub mod Escaping
pub mod Credentials
pub mod Masked
use prompt_sdk.Prelude.{
  ℕ, ◌+◌, ◌-◌, ◌/◌, ◌%◌, Bool, true, false, not, ◌&&◌, ◌||◌, Option, none, some, List, [], ◌∷◌,
  ◌++◌, Text, codes, is_empty, contains_byte, ltb, leb, ◌==◌, if◌then◌else◌,
}

-- the modes of escaping that occur here
pub data Encoding : Type 0 where
  encode_host encode_path encode_user_password encode_query_component : Encoding

unfoldable pub is_unreserved : ℕ → Bool
is_unreserved c =
    (leb b'a' c && leb c b'z')
    || (leb b'A' c && leb c b'Z')
    || (leb b'0' c && leb c b'9')
    || contains_byte (codes "-_.~") c

-- `shouldEscape` of net/url, for a byte that is not unreserved
unfoldable pub escapes_reserved : Encoding → ℕ → Bool
escapes_reserved encode_host c = not (contains_byte (codes "!$&'()*+,;=:[]<>\"") c)
escapes_reserved encode_path c = not (contains_byte (codes "$&+,/:;=@") c)
escapes_reserved encode_user_password c = not (contains_byte (codes "$&+,;=") c)
escapes_reserved encode_query_component c = true

unfoldable pub should_escape : Encoding → ℕ → Bool
unfolding is_unreserved escapes_reserved
should_escape mode c = not (is_unreserved c) && escapes_reserved mode c

unfoldable pub upper_hex : ℕ → ℕ
upper_hex x = if ltb x 10 then b'0' + x else b'A' + (x - 10)

unfoldable pub is_plus : Encoding → ℕ → Bool
is_plus encode_query_component c = c == b' '
is_plus _ c = false

unfoldable pub escape_byte : Encoding → ℕ → Text
unfolding should_escape upper_hex is_plus
escape_byte mode c =
    if is_plus mode c
    then b'+' ∷ []
    else if should_escape mode c
    then b'%' ∷ upper_hex (c / 16) ∷ upper_hex (c % 16) ∷ []
    else c ∷ []

-- `escape` of net/url
unfoldable pub escape : Encoding → Text → Text
escape mode [] = []
escape mode (c ∷ s) = escape_byte mode c ++ escape mode s

module _ (lookup_env : Text → Option Text) where
  unfoldable pub get_env : Text → Text → Text
  get_env key default = elim (lookup_env key) [ some v ↦ v | none ↦ default ]

  unfoldable pub database_user : Text
  unfolding get_env
  database_user = get_env (codes "DB_USER") (codes "prompt-postgres")

  unfoldable pub database_password : Text
  unfolding get_env
  database_password = get_env (codes "DB_PASSWORD") (codes "prompt-postgres")

  -- the query, its keys in the order of `Encode`
  unfoldable pub database_query : Text
  unfolding get_env
  database_query =
      codes "TimeZone="
      ++ (escape encode_query_component (get_env (codes "DB_TIMEZONE") (codes "Europe/Berlin"))
          ++ (codes "&sslmode="
              ++ escape encode_query_component (get_env (codes "SSL_MODE") (codes "disable"))))

  -- what follows the user information
  unfoldable pub database_location : Text → Text → Text
  unfolding get_env
  database_location host port =
      escape encode_host (host ++ b':' ∷ port)
      ++ (escape encode_path (b'/' ∷ get_env (codes "DB_NAME") (codes "prompt"))
          ++ b'?' ∷ database_query)

  unfoldable pub build_database_url : Text → Text → Text
  build_database_url host port =
      codes "postgres://"
      ++ (escape encode_user_password database_user
          ++ b':'
            ∷ (escape encode_user_password database_password ++ b'@' ∷ database_location host port))

  unfoldable pub get_database_url : Text
  get_database_url =
      build_database_url (get_env (codes "DB_HOST") (codes "localhost"))
        (get_env (codes "DB_PORT") (codes "5432"))

  unfoldable pub get_database_url_for_prefix : Text → Text → Text
  get_database_url_for_prefix prefix default_port =
      build_database_url (get_env (codes "DB_HOST_" ++ prefix) (codes "localhost"))
        (get_env (codes "DB_PORT_" ++ prefix) default_port)
