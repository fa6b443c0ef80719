-- ===== src/Middleware/Identity.antt =====
-- The client's address, the request id and the voter's token (internal/middleware/identity.go).
-- Package `net/netip`, `net.SplitHostPort` and base64 are parameters, and so is what `rand.Read` gives.
use Prim.Native.Char.{code}
use Prim.Native.String.{len}
use voting_service.Base.{
  ℕ, String, Bool, true, false, not, ◌&&◌, ◌||◌, ◌≡◌, refl, ap, ◌∙◌, Option, none, some, List, [],
  ◌∷◌, ◌++◌, length, ltb, leb, ◌==◌, if◌then◌else◌, str_eq, trim_space, split_at, arith, ◌≢◌, ◌≤◌,
  ◌⊎◌, inl, inr, str_eq_iff, ==_iff, Bool-cases, sym,
}

-- `netip.Addr` and `netip.Prefix`.
pub record Netip : Type 1 where
  pub Addr : Type 0
  pub Prefix : Type 0
  pub parse : String → Option Addr
  pub unmap : Addr → Addr
  pub text : Addr → String
  pub prefix_contains : Prefix → Addr → Bool

-- Where the loop over the hops, from the last one, ends.
pub data Walk : Type 0 where
  passed : Walk
  stopped : Walk
  found : String → Walk

module _ (netip : Netip) (split_host_port : String → Option String) where
  -- `isTrusted`.
  unfoldable pub is_trusted : netip.Addr → List netip.Prefix → Bool
  is_trusted addr [] = false
  is_trusted addr (prefix ∷ prefixes) =
      if netip.prefix_contains prefix addr then true else is_trusted addr prefixes

  -- `parseAddr`; an invalid address is `none`.
  unfoldable pub parse_addr : String → Option netip.Addr
  parse_addr remote_addr =
      let host = elim (split_host_port remote_addr) as (λ _. String) [
        | none ↦ remote_addr
        | some host ↦ host
      ] in
      elim (netip.parse (trim_space host)) [ none ↦ none | some addr ↦ some (netip.unmap addr) ]

  -- The hops of all the headers.
  unfoldable pub hops_of : List String → List String
  hops_of [] = []
  hops_of (header ∷ headers) = split_at b',' header ++ hops_of headers

  -- The body of the loop at one hop.
  unfoldable pub judge : List netip.Prefix → String → Walk
  judge trusted hop = elim (netip.parse (trim_space hop)) [
    | none ↦ stopped
    | some addr ↦
        if not (is_trusted addr trusted) then found (netip.text (netip.unmap addr)) else passed
  ]

  -- The loop, which begins at the end of the list.
  unfoldable pub walk : List netip.Prefix → List String → Walk
  walk trusted [] = passed
  walk trusted (hop ∷ hops) = elim (walk trusted hops) [
    | passed ↦ judge trusted hop
    | stopped ↦ stopped
    | found ip ↦ found ip
  ]

  -- `resolveClientIP`, of `RemoteAddr` and the values of `X-Forwarded-For`.
  unfoldable pub resolve_client_ip : List netip.Prefix → String → List String → String
  resolve_client_ip trusted remote_addr headers = elim (parse_addr remote_addr) [
    | none ↦ "unknown"
    | some peer ↦
        if length trusted == 0 || not (is_trusted peer trusted)
        then netip.text peer
        else elim (walk trusted (hops_of headers)) [
          | passed ↦ netip.text peer
          | stopped ↦ netip.text peer
          | found ip ↦ ip
        ]
  ]

  -- A hop that parses to an address, in no IPv4-mapped form, with the given answer on its trust.
  pub record IsHop (trusted : List netip.Prefix) (trust : Bool) (hop : String) (addr : netip.Addr)
      : Type 0 where
    pub read : netip.parse (trim_space hop) ≡ some addr
    pub unmapped : netip.unmap addr ≡ addr
    pub trust_of : is_trusted (netip.unmap addr) trusted ≡ trust

  -- Hops that are addresses of trusted proxies, in no IPv4-mapped form.
  abbrev pub AllTrusted : List netip.Prefix → List String → Type 0
  AllTrusted trusted [] = Unit
  AllTrusted trusted (hop ∷ hops) =
      ((addr : netip.Addr) × IsHop trusted true hop addr) × AllTrusted trusted hops

  -- The loop asks for trust before it unmaps the address.
  judge-IsHop :
      (trusted : List netip.Prefix) (trust : Bool) (hop : String) (addr : netip.Addr)
      → IsHop trusted trust hop addr
      → judge trusted hop ≡ (if not trust then found (netip.text (netip.unmap addr)) else passed)
  unfolding judge
  judge-IsHop trusted trust hop addr h =
      let asked = ap (λ a. is_trusted a trusted) (sym h.unmapped) ∙ h.trust_of in
      rw (h.read, judge)
        (ap (λ t. if not t then found (netip.text (netip.unmap addr)) else passed) asked)

  walk-passed :
      (trusted : List netip.Prefix) (hops : List String)
      → AllTrusted trusted hops
      → walk trusted hops ≡ passed
  unfolding walk
  walk-passed trusted [] all = refl
  walk-passed trusted (hop ∷ hops) ((addr, this), all) =
      rw (walk-passed trusted hops all, judge-IsHop trusted true hop addr this) refl

  walk-append :
      (trusted : List netip.Prefix) (claimed hops : List String) (ip : String)
      → walk trusted hops ≡ found ip
      → walk trusted (claimed ++ hops) ≡ found ip
  unfolding walk
  walk-append trusted [] hops ip e = e
  walk-append trusted (hop ∷ claimed) hops ip e = rw (walk-append trusted claimed hops ip e) refl

  is_trusted-nil : (addr : netip.Addr) → is_trusted addr [] ≡ true → ⊥
  unfolding is_trusted
  is_trusted-nil addr e = cc e

  -- Behind trusted proxies the client's address is the last hop that is not a trusted proxy, whatever
  -- the hops before it claim. Trust is asked of the unmapped address here, and the peer's address
  -- is trusted; that hop and those after it are addresses in no IPv4-mapped form.
  pub resolve_client_ip-last_untrusted :
      (trusted : List netip.Prefix) (remote_addr : String) (headers claimed trail : List String)
      (hop : String) (peer addr : netip.Addr)
      → parse_addr remote_addr ≡ some peer
      → is_trusted peer trusted ≡ true
      → hops_of headers ≡ claimed ++ hop ∷ trail
      → AllTrusted trusted trail
      → IsHop trusted false hop addr
      → resolve_client_ip trusted remote_addr headers ≡ netip.text addr
  unfolding resolve_client_ip walk
  resolve_client_ip-last_untrusted [] remote_addr headers claimed trail hop peer addr from inside
        split all outside =
      absurd (is_trusted-nil peer inside)
  resolve_client_ip-last_untrusted (p ∷ trusted) remote_addr headers claimed trail hop peer addr
        from inside split all outside =
      let here : walk (p ∷ trusted) (hop ∷ trail) ≡ found (netip.text addr) =
        rw (walk-passed (p ∷ trusted) trail all) (
          judge-IsHop (p ∷ trusted) false hop addr outside
          ∙ ap (λ a. found (netip.text a)) outside.unmapped) in
      let whole =
        ap (walk (p ∷ trusted)) split ∙ walk-append (p ∷ trusted) claimed (hop ∷ trail) _ here in
      let some_proxy : (length (p ∷ trusted) == 0) ≡ false = ground arith in
      rw (from, resolve_client_ip) (rw (some_proxy, inside, whole) refl)

-- A character of a request id.
unfoldable pub allowed_char : ℕ → Bool
allowed_char c =
    c == 45
    || (c == 95
        || (c == 46
            || ((leb 48 c && leb c 57) || ((leb 97 c && leb c 122) || (leb 65 c && leb c 90)))))

-- The loop of `sanitizeRequestID`.
unfoldable pub all_allowed : String → Bool
all_allowed String.[] = true
all_allowed (String.◌∷◌ c s) = if not (allowed_char (code c)) then false else all_allowed s

-- `sanitizeRequestID`.
unfoldable pub sanitize_request_id : String → String
sanitize_request_id raw =
    if str_eq raw "" || ltb 64 (len raw) then "" else if all_allowed raw then raw else ""

-- A letter, a digit, a hyphen, an underscore or a dot.
pub data IsIdCharacter (c : ℕ) : Type 0 where
  digit : b'0' ≤ c → c ≤ b'9' → IsIdCharacter c
  upper : b'A' ≤ c → c ≤ b'Z' → IsIdCharacter c
  lower : b'a' ≤ c → c ≤ b'z' → IsIdCharacter c
  hyphen : c ≡ b'-' → IsIdCharacter c
  underscore : c ≡ b'_' → IsIdCharacter c
  dot : c ≡ b'.' → IsIdCharacter c

-- Every character of a text is one of those.
abbrev pub IsIdText : String → Type 0
IsIdText String.[] = Unit
IsIdText (String.◌∷◌ c s) = IsIdCharacter (code c) × IsIdText s

-- A request id that goes into logs and headers.
abbrev pub IsSafe : String → Type 0
IsSafe id = (id ≢ "") × (len id ≤ 64) × IsIdText id

IsIdCharacter-allowed_char : (c : ℕ) → IsIdCharacter c → allowed_char c ≡ true
unfolding allowed_char
IsIdCharacter-allowed_char c (digit l h) = ground (arith, l, h)
IsIdCharacter-allowed_char c (upper l h) = ground (arith, l, h)
IsIdCharacter-allowed_char c (lower l h) = ground (arith, l, h)
IsIdCharacter-allowed_char c (hyphen e) = ground (arith, e)
IsIdCharacter-allowed_char c (underscore e) = ground (arith, e)
IsIdCharacter-allowed_char c (dot e) = ground (arith, e)

allowed_char-IsIdCharacter :
    (c : ℕ)
    → ((allowed_char c ≡ true) → IsIdCharacter c) × (IsIdCharacter c → allowed_char c ≡ true)
unfolding allowed_char
allowed_char-IsIdCharacter c = (
  λ h. elim (Bool-cases (c == 45)) [
    | inl e ↦ hyphen ((==_iff c 45).0 e)
    | inr n₁ ↦ elim (Bool-cases (c == 95)) [
      | inl e ↦ underscore ((==_iff c 95).0 e)
      | inr n₂ ↦ elim (Bool-cases (c == 46)) [
        | inl e ↦ dot ((==_iff c 46).0 e)
        | inr n₃ ↦ elim (Bool-cases (leb 48 c && leb c 57)) [
          | inl e ↦ digit (ground (arith, e)) (ground (arith, e))
          | inr n₄ ↦ elim (Bool-cases (leb 97 c && leb c 122)) [
            | inl e ↦ lower (ground (arith, e)) (ground (arith, e))
            | inr n₅ ↦
                let e : (leb 65 c && leb c 90) ≡ true =
                  rw (n₁, n₂, n₃, n₄, n₅, allowed_char) at h in
                upper (ground (arith, e)) (ground (arith, e))
          ]
        ]
      ]
    ]
  ],
  IsIdCharacter-allowed_char c,
)

all_allowed-IsIdText :
    (s : String) → ((all_allowed s ≡ true) → IsIdText s) × (IsIdText s → all_allowed s ≡ true)
unfolding all_allowed
all_allowed-IsIdText String.[] = ((λ _. tt), λ _. refl)
all_allowed-IsIdText (String.◌∷◌ c s) = (
  λ h.
      let first : allowed_char (code c) ≡ true = ground arith in
      let others : all_allowed s ≡ true = ground arith in
      ((allowed_char-IsIdCharacter (code c)).0 first, (all_allowed-IsIdText s).0 others),
  λ (this, others).
      rw ((allowed_char-IsIdCharacter (code c)).1 this) ((all_allowed-IsIdText s).1 others),
)

checked-IsSafe :
    (raw : String) (empty long good : Bool)
    → str_eq raw "" ≡ empty
    → ltb 64 (len raw) ≡ long
    → all_allowed raw ≡ good
    → (IsSafe raw × ((if empty || long then "" else if good then raw else "") ≡ raw))
      ⊎ ((¬ IsSafe raw) × ((if empty || long then "" else if good then raw else "") ≡ ""))
checked-IsSafe raw true long good e l g = inr ((λ safe. safe.0 ((str_eq_iff raw "").0 e)), refl)
checked-IsSafe raw false true good e l g = inr ((λ safe. ground (arith, l, safe.1)), refl)
checked-IsSafe raw false false true e l g = inl (
  ((λ same. cc (e, (str_eq_iff raw "").1 same)), ground (arith, l), (all_allowed-IsIdText raw).0 g),
  refl,
)
checked-IsSafe raw false false false e l g =
    inr ((λ safe. cc (g, (all_allowed-IsIdText raw).1 safe.2)), refl)

-- A client's request id is taken as it is exactly where it is not empty, has at most 64 bytes and
-- only letters, digits, hyphens, underscores and dots; any other is dropped.
pub sanitize_request_id-IsSafe :
    (raw : String)
    → (IsSafe raw × (sanitize_request_id raw ≡ raw))
      ⊎ ((¬ IsSafe raw) × (sanitize_request_id raw ≡ ""))
unfolding sanitize_request_id
sanitize_request_id-IsSafe raw =
    checked-IsSafe raw (str_eq raw "") (ltb 64 (len raw)) (all_allowed raw) refl refl refl

-- `sanitizeToken`; `decodes` is whether base64 decodes the text.
unfoldable pub sanitize_token : (String → Bool) → String → String
sanitize_token decodes raw =
    if not (len raw == 22) then "" else if not (decodes raw) then "" else raw
