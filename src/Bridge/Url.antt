-- ===== src/Bridge/Url.antt =====
-- joinURL of transports/filerelay/bridge/main.go, and the two ways to give the URL of a router.
use nex_talk_file_relay.Base.{
  ◌≡◌, refl, sym, ◌∙◌, Bool, true, false, ◌||◌, ◌&&◌, [], ◌∷◌, ◌++◌, Bytes, ◌==◌, drop, bytes_eq,
  if◌then◌else◌,
}
use mathlib.Core.List.{append_assoc}
use nex_talk_file_relay.Client.Adapter.{drop_slashes, reversed, has_slash}

unfoldable pub has_prefix : Bytes → Bytes → Bool
has_prefix s [] = true
has_prefix [] (p ∷ prefix) = false
has_prefix (c ∷ s) (p ∷ prefix) = c == p && has_prefix s prefix

unfoldable pub has_suffix : Bytes → Bytes → Bool
has_suffix s suffix = has_prefix (reversed s []) (reversed suffix [])

-- "/fr/v1"
abbrev pub api_prefix : Bytes
api_prefix = 47 ∷ 102 ∷ 114 ∷ 47 ∷ 118 ∷ 49 ∷ []

unfoldable pub join_url : Bytes → Bytes → Bytes
join_url given named =
    let base = reversed (drop_slashes (reversed given [])) [] in
    let route = if has_slash named then named else 47 ∷ named in
    if has_suffix base api_prefix
      && (bytes_eq route api_prefix || has_prefix route (api_prefix ++ 47 ∷ []))
    then base ++ drop 6 route
    else base ++ route

-- A base as it should be: no slash at its end, and not yet the prefix.
unfoldable pub IsHost : Bytes → Type 0
IsHost base =
    (drop_slashes (reversed base []) ≡ reversed base []) × (has_suffix base api_prefix ≡ false)

reversed-append : (a acc b : Bytes) → reversed (a ++ b) acc ≡ reversed b (reversed a acc)
unfolding reversed
reversed-append [] acc b = refl
reversed-append (c ∷ a) acc b = reversed-append a (c ∷ acc) b

reversed-reversed : (a acc : Bytes) → reversed (reversed a acc) [] ≡ reversed acc a
unfolding reversed
reversed-reversed [] acc = refl
reversed-reversed (c ∷ a) acc = reversed-reversed a (c ∷ acc)

reversed-twice : (a acc tail : Bytes) → reversed (reversed a acc) tail ≡ reversed acc (a ++ tail)
unfolding reversed
reversed-twice [] acc tail = refl
reversed-twice (c ∷ a) acc tail = reversed-twice a (c ∷ acc) tail

-- A trailing slash of the base makes no difference.
join_url-slash : (base route : Bytes) → join_url (base ++ 47 ∷ []) route ≡ join_url base route
unfolding join_url drop_slashes reversed
join_url-slash base route = rw (reversed-append base [] (47 ∷ [])) refl

join_url-host :
    (base rest : Bytes)
    → IsHost base
    → join_url base (api_prefix ++ 47 ∷ rest) ≡ base ++ (api_prefix ++ 47 ∷ rest)
unfolding join_url has_slash IsHost reversed
join_url-host base rest host = rw (host.0, reversed-reversed base []) (rw host.1 refl)

join_url-prefixed :
    (base rest : Bytes)
    → join_url (base ++ api_prefix) (api_prefix ++ 47 ∷ rest) ≡ (base ++ api_prefix) ++ 47 ∷ rest
unfolding join_url has_slash has_prefix has_suffix reversed drop_slashes bytes_eq
join_url-prefixed base rest =
    rw
      (
        reversed-append base [] api_prefix,
        reversed-twice base [] api_prefix,
        reversed-append base [] api_prefix,
      )
      refl

-- The URL of a router may be given at its root or at its prefix: both lead to the same address, the
-- root with the route behind it.
pub join_url-rooted :
    (base rest : Bytes)
    → IsHost base
    → (join_url base (api_prefix ++ 47 ∷ rest) ≡ base ++ (api_prefix ++ 47 ∷ rest))
      × (join_url (base ++ api_prefix) (api_prefix ++ 47 ∷ rest)
          ≡ join_url base (api_prefix ++ 47 ∷ rest))
      × (join_url (base ++ 47 ∷ []) (api_prefix ++ 47 ∷ rest)
          ≡ join_url base (api_prefix ++ 47 ∷ rest))
join_url-rooted base rest host = (
  join_url-host base rest host,
  join_url-prefixed base rest
      ∙ append_assoc base api_prefix (47 ∷ rest)
      ∙ sym (join_url-host base rest host),
  join_url-slash base (api_prefix ++ 47 ∷ rest),
)
