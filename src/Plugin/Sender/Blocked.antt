-- ===== src/Plugin/Sender/Blocked.antt =====
-- How often a sender has to be enabled until nothing blocks its stream.
use nmos_sender_receiver_fra.Prelude.{
  ℕ, String, ◌≡◌, refl, sym, ap, subst, ◌∙◌, Bool, true, false, ◌&&◌, List, [], ◌∷◌, ◌==◌,
  if◌then◌else◌, ==_iff, if_cases,
}
use nmos_sender_receiver_fra.Expected.{ok}
use nmos_sender_receiver_fra.Prelude.Int.{ℤ, pos}
use nmos_sender_receiver_fra.Json.Api.{JsonApi}
use nmos_sender_receiver_fra.Plugin.Params.{first_param, member, rtp_enabled}
use nmos_sender_receiver_fra.Plugin.Sender.{
  SenderElement, add_probe, remove_probe, unblock, set_destination, read_or, activate,
  on_activation,
}

remove_probe-head : (i : ℕ) (ps : List ℕ) → remove_probe i (i ∷ ps) ≡ ps
unfolding remove_probe
remove_probe-head i ps =
    if_cases (λ x. x ≡ ps) (i == i) (λ _. refl) (λ e. let same = (==_iff i i).1 refl in cc)

-- The last probe is taken away.
unblock-probes :
    (s : SenderElement) (i : ℕ) (ps : List ℕ)
    → s.block_id ≡ i
    → (i == 0) ≡ false
    → s.probes ≡ i ∷ ps
    → ((unblock s).probes ≡ ps)
      × ((unblock s).block_id ≡ 0)
      × ((unblock s).host ≡ s.host)
      × ((unblock s).port ≡ s.port)
unfolding unblock
unblock-probes s i ps b n p =
    if_cases
      (λ (t : SenderElement).
        (t.probes ≡ ps) × (t.block_id ≡ 0) × (t.host ≡ s.host) × (t.port ≡ s.port))
      (s.block_id == 0) (λ e. let k = ap (λ x. x == 0) b in cc)
      (λ _. (
        ap (λ x. remove_probe x s.probes) b ∙ ap (remove_probe i) p ∙ remove_probe-head i ps,
        refl,
        refl,
        refl,
      ))

-- What blocks the stream: the ids of `probes`, of which the first is known to the element.
abbrev blocking_id : List ℕ → ℕ
blocking_id [] = 0
blocking_id (i ∷ ids) = i

abbrev pub rest_of : List ℕ → List ℕ
rest_of [] = []
rest_of (i ∷ ids) = ids

abbrev NonZero : List ℕ → Type 0
NonZero [] = Unit
NonZero (i ∷ ids) = (i == 0) ≡ false

pub record IsBlocked (ids : List ℕ) (s : SenderElement) : Type 0 where
  pub known : s.block_id ≡ blocking_id ids
  pub probes : s.probes ≡ ids
  pub proper : NonZero ids

add_probe-IsBlocked :
    (i : ℕ) (ids : List ℕ) (s : SenderElement)
    → (i == 0) ≡ false
    → IsBlocked ids s
    → IsBlocked (i ∷ ids) (add_probe i s)
unfolding add_probe
add_probe-IsBlocked i ids s n h = record {
  known = refl;
  probes = if_cases (λ x. x ≡ i ∷ ids) (i == 0) (λ e. cc) (λ _. ap (λ x. i ∷ x) h.probes);
  proper = n;
}

module _ (J : JsonApi) where
  open J use {Json, get_string, get_number}

  -- Activations that disable the sender, with the ids of the probes that they add, the last one first.
  pub data Disabled (s : SenderElement) : List ℕ → SenderElement → Type 0 where
    at_first : Disabled s [] s
    again :
        {ids : List ℕ} {t : SenderElement} (id : ℕ) (m b : Bool) (params : Json)
        → (id == 0) ≡ false
        → rtp_enabled J (first_param J params) ≡ ok b
        → (m && b) ≡ false
        → Disabled s ids t
        → Disabled s (id ∷ ids) (on_activation J id m params t).0

  disabled-state :
      (id : ℕ) (m b : Bool) (params : Json) (t : SenderElement)
      → rtp_enabled J (first_param J params) ≡ ok b
      → (m && b) ≡ false
      → (on_activation J id m params t).0 ≡ add_probe id t
  unfolding on_activation
  disabled-state id m b params t e f = rw (e, f) refl

  Disabled-IsBlocked :
      {s t : SenderElement} {ids : List ℕ} → IsBlocked [] s → Disabled s ids t → IsBlocked ids t
  Disabled-IsBlocked h at_first = h
  Disabled-IsBlocked h (again {ids} {t} id m b params n e f d) =
      subst (IsBlocked (id ∷ ids)) (sym (disabled-state id m b params t e f))
        (add_probe-IsBlocked id ids t n (Disabled-IsBlocked h d))

  -- The destination of the transport parameters, and what is taken where they have none.
  pub record HasDestination (params : Json) (ip : String) (port : ℤ) : Type 0 where
    pub host : read_or J get_string "" (member J (first_param J params) "destination_ip") ≡ ok ip
    pub number :
        read_or J get_number (pos 9999) (member J (first_param J params) "destination_port")
        ≡ ok port

  -- The stream goes to the destination, and `ids` still block it.
  pub record Sends (ids : List ℕ) (ip : String) (port : ℤ) (s : SenderElement) : Type 0 where
    pub probes : s.probes ≡ ids
    pub known : s.block_id ≡ 0
    pub host : s.host ≡ ip
    pub number : s.port ≡ port

  enabled-state :
      (id : ℕ) (params : Json) (ip : String) (port : ℤ) (t : SenderElement)
      → rtp_enabled J (first_param J params) ≡ ok true
      → HasDestination params ip port
      → on_activation J id true params t
        ≡ (unblock (set_destination ip port (if t.block_id == 0 then add_probe id t else t)), ok tt)
  unfolding on_activation activate
  enabled-state id params ip port t e h = rw (e, h.host, h.number) refl

  unblock-Sends :
      (i : ℕ) (ids : List ℕ) (ip : String) (port : ℤ) (s : SenderElement)
      → IsBlocked (i ∷ ids) s
      → Sends ids ip port (unblock (set_destination ip port s))
  unfolding set_destination
  unblock-Sends i ids ip port s h =
      let (p, k, a, b) =
        unblock-probes (set_destination ip port s) i ids h.known h.proper h.probes in
      record { probes = p; known = k; host = a; number = b }

  blocked-Sends :
      (id : ℕ) (ids : List ℕ) (ip : String) (port : ℤ) (t : SenderElement)
      → (id == 0) ≡ false
      → IsBlocked ids t
      → Sends
          (rest_of ids)
          ip
          port
          (unblock (set_destination ip port (if t.block_id == 0 then add_probe id t else t)))
  blocked-Sends id [] ip port t n h =
      if_cases (λ x. Sends [] ip port (unblock (set_destination ip port x))) (t.block_id == 0)
        (λ _. unblock-Sends id [] ip port (add_probe id t) (add_probe-IsBlocked id [] t n h))
        (λ e. let k = ap (λ x. x == 0) h.known in cc)
  blocked-Sends id (i ∷ ids) ip port t n h =
      if_cases (λ x. Sends ids ip port (unblock (set_destination ip port x))) (t.block_id == 0)
        (λ e. let k = ap (λ x. x == 0) h.known in let z = h.proper in cc)
        (λ _. unblock-Sends i ids ip port t h)

  -- A sender that nothing blocks is disabled some times, and then enabled: it sends to the destination
  -- of the transport parameters, and all probes but the last one still block it, so that it sends if it
  -- was disabled once, or not at all.
  pub enable-Sends :
      {s t : SenderElement} {ids : List ℕ} (id : ℕ) (params : Json) (ip : String) (port : ℤ)
      → IsBlocked [] s
      → Disabled s ids t
      → (id == 0) ≡ false
      → rtp_enabled J (first_param J params) ≡ ok true
      → HasDestination params ip port
      → (u : SenderElement) × (on_activation J id true params t ≡ (u, ok tt))
        × Sends (rest_of ids) ip port u
  enable-Sends {t = t} {ids = ids} id params ip port h d n e to = (
    _,
    enabled-state id params ip port t e to,
    blocked-Sends id ids ip port t n (Disabled-IsBlocked h d),
  )
