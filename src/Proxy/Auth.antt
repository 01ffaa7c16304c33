-- ===== src/Proxy/Auth.antt =====
-- crates/modeld-proxy/src/auth.rs: bearer tokens and address rules.
pub mod Cidr
mod Tests
use Prim.Native.Nat.{bit_and}
use model_id.Base.{
  ℕ, zero, suc, ◌+◌, ◌-◌, ◌*◌, ◌/◌, ◌%◌, ◌^◌, Bool, true, false, ◌&&◌, ◌||◌, not, List, [], ◌∷◌,
  Option, none, some, ltb, leb, if◌then◌else◌, any, take, length, get_elem?, list_eq, nat_eq, ◌==◌,
}
use model_id.Base.Text.{Text, split, split_once, starts_with}
use model_id.Base.Decimal.{parse_u32}
use model_id.Proxy.Config.{AuthConfig, NetworkConfig, unwrap_or}

unfoldable pub check_auth : Option Text → AuthConfig → Bool
check_auth provided_token cfg =
    if not cfg.require_token
    then true
    else (elim provided_token [ some t ↦ any (λ valid. valid == t) cfg.tokens | none ↦ false ])

-- `split_once('/')`: the base and, if there is a mask that parses, its number of bits.
abbrev pub mask_of : Text → Option (Text × Text) → Text × Option ℕ
mask_of rule none = (rule, none)
mask_of rule (some (b, m)) = (b, parse_u32 m)

-- `parts[i]`, which is read only below four
abbrev pub part : List Text → ℕ → Text
part parts i = unwrap_or (get_elem? parts i) []

-- The octets before the partial one, `for i in 0..full_octets`.
unfoldable pub octets_agree : ℕ → List Text → List Text → Bool
octets_agree zero p b = true
octets_agree (suc n) p b = octets_agree n p b && part p n == part b n

-- `0xFFu32 << (8 - rem) & 0xFF`
abbrev pub mask_byte : ℕ → ℕ
mask_byte rem = (255 * 2 ^ (8 - rem)) % 256

unfoldable pub partial_agrees : Text → Text → ℕ → Bool
partial_agrees p b rem =
    bit_and (unwrap_or (parse_u32 p) 0) (mask_byte rem)
    == bit_and (unwrap_or (parse_u32 b) 0) (mask_byte rem)

unfoldable pub masked_match : List Text → List Text → ℕ → Bool
unfolding octets_agree partial_agrees
masked_match peer_parts base_parts bits =
    let full_octets = bits / 8 in
    let rem = bits % 8 in
    if ltb 4 full_octets
    then false
    else if not (octets_agree full_octets peer_parts base_parts)
    then false
    else if ltb 0 rem && ltb full_octets 4
    then partial_agrees (part peer_parts full_octets) (part base_parts full_octets) rem
    else true

abbrev pub by_mask : Text → Text → List Text → List Text → Option ℕ → Bool
by_mask ip base peer_parts base_parts (some bits) = masked_match peer_parts base_parts bits
by_mask ip base peer_parts base_parts none = ip == base

abbrev pub match_parts : Text → Text × Option ℕ → Bool
match_parts ip (base, mask) =
    let peer_parts = split b'.' ip in
    let base_parts = split b'.' base in
    if length peer_parts == 4 && length base_parts == 4
    then by_mask ip base peer_parts base_parts mask
    else starts_with base ip

unfoldable pub ip_matches : Text → Text → Bool
unfolding masked_match
ip_matches ip rule =
    if ip == rule then true else match_parts ip (mask_of rule (split_once b'/' rule))

unfoldable pub check_ip : Text → NetworkConfig → Bool
unfolding ip_matches
check_ip peer_ip cfg =
    if any (λ d. ip_matches peer_ip d) cfg.denied_ips then false else (elim cfg.allowed_ips [
      | [] ↦ true
      | a ∷ rest ↦ any (λ a. ip_matches peer_ip a) (a ∷ rest)
    ])
