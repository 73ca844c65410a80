-- ===== src/Tests/Chains.antt =====
-- A root and a zone below it, signed with the key of the other tests, and a server that answers for
-- both.
use dns_resolver.Text.Split.{IsLabel}
use dns_resolver.Resolver.Validation.Answering.{Answering, Ended}
use dns_resolver.Resolver.Validation.Ending.{descend_to-Ended}
use dns_resolver.Resolver.Validation.Answers.{IsChecked}
use dns_resolver.Resolver.Validation.Secure.{IsPlain, validate_answer-secure}
use dns_resolver.Resolver.Validation.Downgrade.{DeniedDs, UnknownKeys, enter_zone-downgrade}
use dns_resolver.Resolver.Validation.Attempts.{IsVerified, verify_with-IsVerified}
use dns_resolver.Dnsmsg.Dnssec.{Rrsig}
use dns_resolver.Resolver.Validation.Cuts.{
  IsDescended, descend_to-IsDescended, cross_delegation-IsState,
}
use dns_resolver.Resolver.Validation.Keys.{IsKeys, zone_keys-IsKeys}
use dns_resolver.Resolver.Validation.Descent.{Secured, IsState, starting_security-IsState}
use dns_resolver.Cache.{second}
use dns_resolver.GoMap.{find}
use dns_resolver.Resolver.Validation.{
  SecState, Upstream, verify_with, validate_answer, insecure, records_of_type,
}
use dns_resolver.Resolver.Validation.Chain.{
  Settings, World, starting_security, KeyEntry, descend_to, enter_zone, zone_keys, cross_delegation,
  trust_anchors,
}
use dns_resolver.Text.{eqb, dot, is_ascii, trim_dot, normalize, labels_of, equal_name}
use dns_resolver.Dnsmsg.{
  Rr, zero_rr, Message, type_rrsig, type_dnskey, type_ds, type_nsec, type_a, zero_header,
}
use dns_resolver.Prelude.{
  Bytes, ℕ, List, take, ◌∷◌, Result, true, some, [], ◌++◌, if◌then◌else◌, ◌*◌, false, ◌==◌, ◌≡◌, ok,
  length, ◌&&◌, not, refl, ◌⊎◌, All, Member, Bool, ◌≢◌, arith, suc, err, out_of_fuel,
}
use dns_resolver.Denial.Hashed.{Digest}
use dns_resolver.Tests.Signatures.{front, ascii_only, zeros, zone_key}
use dns_resolver.Resolver.Delegations.{bytes_eq}
use dns_resolver.Resolver.Validation.Trust.{IsSound, Trusted, at_root}

instance unfoldable first_bytes : Digest
first_bytes = record { sha1 = take 20 }

abbrev z : Bytes
z = b'z' ∷ []

-- The RDATA of a signature of this type, with these labels and this signer.
abbrev sig_raw : ℕ → ℕ → Bytes → Bytes
sig_raw type labels signer =
    0
    ∷ type
    ∷ 15
    ∷ labels
    ∷ 0
    ∷ 0
    ∷ 0
    ∷ 0
    ∷ 0
    ∷ 0
    ∷ 0
    ∷ 100
    ∷ 0
    ∷ 0
    ∷ 0
    ∷ 0
    ∷ 4
    ∷ 15
    ∷ (signer ++ (0 ∷ type ∷ 15 ∷ []))

abbrev sig_rr : Bytes → ℕ → ℕ → Bytes → Rr
sig_rr name type labels signer = record zero_rr {
  name = name;
  type = type_rrsig;
  class = 1;
  raw = sig_raw type labels signer;
}

abbrev key_rr : Bytes → Rr
key_rr name = record zero_rr {
  name = name;
  type = type_dnskey;
  class = 1;
  raw = 1 ∷ 0 ∷ 3 ∷ 15 ∷ zeros;
}

abbrev ds_rr : Rr
ds_rr = record zero_rr {
  name = z;
  type = type_ds;
  class = 1;
  raw = 4 ∷ 15 ∷ 15 ∷ 2 ∷ 1 ∷ b'z' ∷ 0 ∷ 1 ∷ [];
}

abbrev nsec_rr : Rr
nsec_rr = record zero_rr { name = z; type = type_nsec; class = 1; raw = 0 ∷ 0 ∷ 1 ∷ 32 ∷ [] }

abbrev host_rr : Rr
host_rr = record zero_rr { name = z; type = type_a; class = 1; a = 10 ∷ 0 ∷ 0 ∷ 1 ∷ [] }

abbrev message : List Rr → List Rr → Message
message answers authorities = record {
  header = zero_header;
  questions = [];
  answers = answers;
  authorities = authorities;
  additionals = [];
}

abbrev reply_for : Bytes → ℕ → Result Message
reply_for name type =
    if type == type_ds
    then ok (message (ds_rr ∷ sig_rr z type_ds 1 (0 ∷ []) ∷ []) [])
    else if length name == 1 && (not (eqb name (dot ∷ [])))
    then ok (message (key_rr z ∷ sig_rr z type_dnskey 1 (1 ∷ b'z' ∷ 0 ∷ []) ∷ []) [])
    else ok (message (key_rr (dot ∷ []) ∷ sig_rr (dot ∷ []) type_dnskey 0 (0 ∷ []) ∷ []) [])

instance unfoldable servers_up : Upstream
unfolding eqb
servers_up = record { clock = λ t. 50 * second; reply = λ t servers name type. reply_for name type }

abbrev settings : Settings
settings = record {
  validate = true;
  anchors = some (
      record { key_tag = 1039; algorithm = 15; digest_type = 2; digest = 0 ∷ 1 ∷ 0 ∷ 3 ∷ [] } ∷ []);
}

abbrev start : World
start = record { cache = some []; tick = 0 }

abbrev secured : SecState
secured = record { secure = true; keys = zone_key ∷ [] }

empty-IsSound : IsSound settings start.cache
unfolding find
empty-IsSound = record {
  trusted = λ entries zone e same hit. absurd (empty_find entries zone e same hit);
}
  where
    empty_find :
        (entries : List (Bytes × KeyEntry)) (zone : Bytes) (e : KeyEntry)
        → start.cache ≡ some entries
        → find zone entries ≡ some e
        → ⊥
    empty_find [] zone e same hit = absurd (cc)
    empty_find (b ∷ bs) zone e same hit = absurd (cc)

root_keys : (starting_security settings false (dot ∷ []) [] start).0 ≡ ok secured
unfolding starting_security servers_up front ascii_only
root_keys = refl

root_secured : Secured settings (dot ∷ []) secured
root_secured =
    (starting_security-IsState settings false (dot ∷ []) [] start empty-IsSound).secured secured
      root_keys

-- The walk reaches the zone below with its keys, and takes it for unsigned if they are denied.
z_reached : (descend_to 3 settings secured (dot ∷ []) z [] start).0 ≡ ok secured
unfolding descend_to servers_up front ascii_only first_bytes
z_reached = refl

starting_security-IsState_example :
    IsState settings (dot ∷ []) (starting_security settings false (dot ∷ []) [] start)
starting_security-IsState_example =
    starting_security-IsState settings false (dot ∷ []) [] start empty-IsSound

zone_keys-IsKeys_example :
    IsKeys settings (dot ∷ []) (zone_keys (dot ∷ []) [] (trust_anchors settings) start)
zone_keys-IsKeys_example =
    zone_keys-IsKeys settings (dot ∷ []) [] (trust_anchors settings) start at_root empty-IsSound

abbrev referral : Message
referral = message [] (ds_rr ∷ sig_rr z type_ds 1 (0 ∷ []) ∷ [])

cross_delegation-IsState_example :
    IsState settings z (cross_delegation settings secured referral z [] start)
cross_delegation-IsState_example =
    cross_delegation-IsState settings secured (normalize (dot ∷ [])) referral z [] start
      root_secured empty-IsSound

descend_to-IsDescended_example :
    IsDescended settings z (descend_to 3 settings secured (dot ∷ []) z [] start)
descend_to-IsDescended_example =
    descend_to-IsDescended 3 settings secured (dot ∷ []) z [] start root_secured empty-IsSound

abbrev host_section : List Rr
host_section = host_rr ∷ sig_rr z type_a 1 (0 ∷ []) ∷ []

abbrev host_sig : Rrsig
host_sig = record {
  type_covered = type_a;
  algorithm = 15;
  labels = 1;
  original_ttl = 0;
  expiration = 100;
  inception = 0;
  key_tag = 1039;
  signer_name = dot ∷ [];
  signature = 0 ∷ 1 ∷ 15 ∷ [];
}

host_accepted : (verify_with (host_rr ∷ []) host_section (zone_key ∷ []) 0).0 ≡ ok host_sig
unfolding verify_with servers_up front ascii_only
host_accepted = refl

verify_with-IsVerified_example :
    IsVerified
      (host_rr ∷ [])
      host_section
      (zone_key ∷ [])
      host_sig
      0
      (verify_with (host_rr ∷ []) host_section (zone_key ∷ []) 0).1
verify_with-IsVerified_example =
    verify_with-IsVerified (host_rr ∷ []) host_section (zone_key ∷ []) 0 host_sig host_accepted

host_secure :
    (validate_answer settings.validate secured (message host_section []) (host_rr ∷ []) 0).0
    ≡ ok true
unfolding validate_answer servers_up front ascii_only first_bytes
host_secure = refl

host-IsPlain : All IsPlain (host_rr ∷ [])
unfolding is_ascii trim_dot
host-IsPlain = ((refl, refl), tt)

validate_answer-secure_example :
    Trusted settings (normalize (dot ∷ [])) secured.keys
    × ((rr : Rr)
        → Member rr (host_rr ∷ [])
        → (first : Rr) × Member rr (records_of_type (host_rr ∷ []) first.type first.name)
          × IsChecked secured (message host_section []) (host_rr ∷ []) first)
validate_answer-secure_example =
    validate_answer-secure settings secured (dot ∷ []) (message host_section []) (host_rr ∷ []) 0
      root_secured host-IsPlain host_secure

abbrev denial : List Rr
denial = nsec_rr ∷ sig_rr z type_nsec 1 (0 ∷ []) ∷ []

z_denied : (enter_zone settings secured denial z [] start).0 ≡ ok insecure
unfolding enter_zone servers_up front ascii_only first_bytes
z_denied = refl

enter_zone-downgrade_example : DeniedDs secured denial z ⊎ UnknownKeys secured denial z [] start
enter_zone-downgrade_example =
    enter_zone-downgrade settings secured denial z [] start insecure refl refl z_denied refl

answering : Answering
unfolding servers_up
answering tick servers name type h =
    absurd (always _ _ _ (type == type_ds) ((length name == 1) && not (eqb name (dot ∷ []))) h)
  where
    always :
        (a b d : Message) (p q : Bool)
        → (if p then ok a else if q then ok b else ok d) ≢ err out_of_fuel
    always a b d true q h = absurd (cc)
    always a b d false true h = absurd (cc)
    always a b d false false h = absurd (cc)

z-IsLabel : All IsLabel (labels_of z)
unfolding labels_of
z-IsLabel = (((λ h. absurd (cc)), (λ h. absurd (omega arith), tt)), tt)

descend_to-Ended_example :
    Ended (descend_to (suc (suc (length (labels_of z)))) settings secured (dot ∷ []) z [] start).0
unfolding equal_name ascii_only
descend_to-Ended_example =
    descend_to-Ended settings secured (dot ∷ []) z [] start answering refl z-IsLabel
