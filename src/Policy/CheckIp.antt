-- ===== src/Policy/CheckIp.antt =====
-- ssrf.go, CheckIP: its recursion ends, its denials, and the order between policies.
use httpc.Prelude.{
  ℕ, zero, suc, ◌≡◌, ◌↔◌, ◌⊎◌, inl, inr, refl, ◌∙◌, true, false, Option, none, some, List, [], ◌∷◌,
  length, arith, is_some, Option-cases, ◌==◌,
}
use httpc.Errors.{Err, is_err, blocked_by_policy}
use httpc.Net.{Ip, IpNet, ipv4, to4, to16}
use httpc.Policy.{
  IpPolicy, or_default, allows, in_any, check_private, check_embedded, check_body, check_ip_fuel,
  check_ip, embedded_in, byte, embedded_ipv4, metadata_ip_nets, non_decodable_ip_nets,
  private_ip_nets,
}

to4-ipv4 : (a b c d : ℕ) → to4 (ipv4 a b c d) ≡ some (a ∷ b ∷ c ∷ d ∷ [])
unfolding to4
to4-ipv4 a b c d = refl

embedded_in-IsIpv4 : (x v : Ip) → embedded_in x ≡ some v → is_some (to4 v) ≡ true
embedded_in-IsIpv4 x v h = ground (
  arith,
  to4-ipv4 (byte x 2) (byte x 3) (byte x 4) (byte x 5),
  to4-ipv4 (byte x 12) (byte x 13) (byte x 14) (byte x 15),
)

-- The address that is found inside another one holds no further one.
embedded_ipv4_once : (ip v : Ip) → embedded_ipv4 ip ≡ some v → embedded_ipv4 v ≡ none
unfolding embedded_ipv4
embedded_ipv4_once ip v h = elim (Option-cases (to16 ip)) [
  | inl e ↦ ground arith
  | inr (x, e) ↦ ground (arith, embedded_in-IsIpv4 x v)
]

-- Fuel 1 does for an address with nothing inside it.
check_ip_fuel_plain :
    (f : ℕ) (p : Option IpPolicy) (ip : Ip)
    → embedded_ipv4 ip ≡ none
    → check_ip_fuel (suc f) p ip ≡ check_ip p ip
unfolding check_ip check_ip_fuel check_body
check_ip_fuel_plain f p ip h = rw h

check_ip_def : (p : Option IpPolicy) (ip : Ip) → check_ip p ip ≡ check_body (check_ip_fuel 1 p) p ip
unfolding check_ip check_ip_fuel
check_ip_def p ip = refl

-- The body asks its check about the embedded address only.
check_body_cong :
    (f g : Ip → Option Err) (p : Option IpPolicy) (ip v : Ip)
    → embedded_ipv4 ip ≡ some v
    → f v ≡ g v
    → check_body f p ip ≡ check_body g p ip
unfolding check_body
check_body_cong f g p ip v e h = rw (e, check_embedded, h)

check_body_plain :
    (f g : Ip → Option Err) (p : Option IpPolicy) (ip : Ip)
    → embedded_ipv4 ip ≡ none
    → check_body f p ip ≡ check_body g p ip
unfolding check_body
check_body_plain f g p ip e = rw e

-- CheckIP satisfies its own recursive definition: its result is what its body gives with CheckIP
-- itself as the check of the embedded address, so the fuel is enough for every address.
pub check_ip-eq : (p : Option IpPolicy) (ip : Ip) → check_ip p ip ≡ check_body (check_ip p) p ip
check_ip-eq p ip = check_ip_def p ip ∙ elim (Option-cases (embedded_ipv4 ip)) [
  | inl e ↦ check_body_plain (check_ip_fuel 1 p) (check_ip p) p ip e
  | inr (v, e) ↦
      check_body_cong (check_ip_fuel 1 p) (check_ip p) p ip v e
        (check_ip_fuel_plain 0 p v (embedded_ipv4_once ip v e))
]

check_private-blocked :
    (p : IpPolicy) (nets : List IpNet) (ip : Ip) (e : Err)
    → check_private p nets ip ≡ some e
    → is_err blocked_by_policy e ≡ true
unfolding check_private is_err
check_private-blocked p [] ip e h = cc
check_private-blocked p (n ∷ ns) ip e h = ground (arith, check_private-blocked p ns ip e)

check_body-blocked :
    (f : Ip → Option Err) (p : Option IpPolicy) (ip : Ip) (e : Err)
    → ((v : Ip) (d : Err) → f v ≡ some d → is_err blocked_by_policy d ≡ true)
    → check_body f p ip ≡ some e
    → is_err blocked_by_policy e ≡ true
unfolding check_body is_err
check_body-blocked f p ip e hf h = elim (Option-cases (embedded_ipv4 ip)) [
  | inl none_inside ↦
      ground (arith, none_inside, check_private-blocked (or_default p) private_ip_nets ip e)
  | inr (v, inside) ↦ elim (Option-cases (f v)) [
    | inl ok ↦ ground (arith, inside, ok, check_private-blocked (or_default p) private_ip_nets ip e)
    | inr (d, denied) ↦ ground (
      arith,
      inside,
      denied,
      hf v d denied,
      check_private-blocked (or_default p) private_ip_nets ip e,
    )
  ]
]

check_ip_fuel-blocked :
    (f : ℕ) (p : Option IpPolicy) (ip : Ip) (e : Err)
    → check_ip_fuel f p ip ≡ some e
    → is_err blocked_by_policy e ≡ true
unfolding check_ip_fuel
check_ip_fuel-blocked zero p ip e h = unfold is_err in ground arith
check_ip_fuel-blocked (suc f) p ip e h =
    check_body-blocked (check_ip_fuel f p) p ip e (check_ip_fuel-blocked f p) h

-- Every denial of CheckIP wraps ErrBlockedByPolicy, so that the retry policy and callers can tell
-- it from a network error.
pub check_ip-blocked :
    (p : Option IpPolicy) (ip : Ip) (e : Err)
    → check_ip p ip ≡ some e
    → is_err blocked_by_policy e ≡ true
unfolding check_ip
check_ip-blocked p ip e h = check_ip_fuel-blocked 2 p ip e h

-- The loop over the private blocks passes an address that is in none, or in an exception.
check_private_iff :
    (p : IpPolicy) (nets : List IpNet) (ip : Ip)
    → (check_private p nets ip ≡ none)
      ↔ ((in_any nets ip ≡ false) ⊎ (allows p.allowed_cidrs ip ≡ true))
unfolding check_private
check_private_iff p [] ip = (λ h. inl refl, λ h. refl)
check_private_iff p (n ∷ ns) ip =
    (ground (arith, check_private_iff p ns ip), ground (arith, check_private_iff p ns ip))

-- What a permitted address satisfies under every policy.
pub record IsPermissible (p : Option IpPolicy) (ip : Ip) : Type 0 where
  pub well_formed : is_some (to16 ip) ≡ true
  pub not_empty : (length ip == 0) ≡ false
  pub not_metadata : in_any metadata_ip_nets ip ≡ false
  pub decodable : in_any non_decodable_ip_nets ip ≡ false
  pub embedded_permitted : check_embedded (check_ip p) (embedded_ipv4 ip) ≡ none

-- What the policy itself has to allow.
abbrev pub IsAllowed : IpPolicy → Ip → Type 0
IsAllowed p ip =
    (p.allow_private ≡ true)
    ⊎ (in_any private_ip_nets ip ≡ false)
    ⊎ (allows p.allowed_cidrs ip ≡ true)

-- CheckIP permits an address exactly if it is well formed, in no metadata block and in no
-- non-decodable block, the IPv4 address inside it (if any) is permitted, and the policy allows
-- private addresses, or the address is in no private block, or in one of the exceptions.
pub check_ip_iff :
    (p : Option IpPolicy) (ip : Ip)
    → (check_ip p ip ≡ none) ↔ (IsPermissible p ip × IsAllowed (or_default p) ip)
check_ip_iff p ip =
    let eq = check_ip-eq p ip in
    let loop = check_private_iff (or_default p) private_ip_nets ip in
    unfold check_body in (ground (arith, eq, loop), ground (arith, eq, loop))

-- The first policy permits no more than the second.
pub record IsStricter (p q : IpPolicy) : Type 0 where
  pub private : p.allow_private ≡ true → q.allow_private ≡ true
  pub exceptions : (ip : Ip) → allows p.allowed_cidrs ip ≡ true → allows q.allowed_cidrs ip ≡ true

module _ (p q : Option IpPolicy) (stricter : IsStricter (or_default p) (or_default q)) where
  mono_step :
      (ip : Ip)
      → check_embedded (check_ip q) (embedded_ipv4 ip) ≡ none
      → check_ip p ip ≡ none
      → check_ip q ip ≡ none
  mono_step ip inside h =
      ground (arith, check_ip_iff p ip, check_ip_iff q ip, stricter.private, stricter.exceptions ip)

  mono_plain : (ip : Ip) → embedded_ipv4 ip ≡ none → check_ip p ip ≡ none → check_ip q ip ≡ none
  mono_plain ip e h = mono_step ip (rw e) h

-- A policy that allows no less permits every address that a stricter one permits.
check_ip_mono :
    (p q : Option IpPolicy) (ip : Ip)
    → IsStricter (or_default p) (or_default q)
    → check_ip p ip ≡ none
    → check_ip q ip ≡ none
check_ip_mono p q ip s h = elim (Option-cases (embedded_ipv4 ip)) [
  | inl e ↦ mono_plain p q s ip e h
  | inr (v, e) ↦
      let inside = ((check_ip_iff p ip).0 h).0.embedded_permitted in
      let permitted = mono_plain p q s v (embedded_ipv4_once ip v e) (ground (arith, inside)) in
      mono_step p q s ip (rw (e, check_embedded, permitted)) h
]
