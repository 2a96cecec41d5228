-- ===== src/VideoCall/Released.antt =====
-- video_call.py: what `_cleanup` releases, and what it leaves to the other parts.
use hass_comelit_intercom_lo.Base.{
  ◌≡◌, ◌≢◌, refl, ap, subst, All, ◌∙◌, Bool, true, false, not, ◌&&◌, ◌||◌, Option, none, List, [],
  ◌∷◌, arith, if◌then◌else◌,
}
use hass_comelit_intercom_lo.Base.Bytes.{Str}
use hass_comelit_intercom_lo.Base.Dict.{
  Dict, get, pop, same, same_iff, str_keys, IsDict, pop-IsDict, get-pop_self, get-pop_other,
}
use hass_comelit_intercom_lo.Client.State.{Channel, Client}
use hass_comelit_intercom_lo.Client.Calls.{remove_channel}
use hass_comelit_intercom_lo.VideoCall.Session.{Call}
use hass_comelit_intercom_lo.VideoCall.Cleanup.{
  ctpp_name, cspb_name, udpm_name, rtpc_name, rtpc2_name, rtpc_device_name, rtpc_device_reest_name,
  video_channel_names, is_kept, release_channels, clear_session, cleanup,
}

abbrev is_in : Str → List Str → Bool
is_in name [] = false
is_in name (other ∷ names) = same other name || is_in name names

-- The channel of a name after a release: gone, if the name is released, and else as it was.
abbrev channel_after : Bool → List Str → Str → Option Channel → Option Channel
channel_after owns_ctpp names name before =
    if is_in name names && not (is_kept owns_ctpp name) then none else before

kept_channel :
    (owns_ctpp b : Bool) (other name : Str) (names : List Str) (before : Option Channel)
    → is_kept owns_ctpp other ≡ true
    → same other name ≡ b
    → channel_after owns_ctpp names name before
      ≡ channel_after owns_ctpp (other ∷ names) name before
kept_channel owns_ctpp true other name names before p q =
    let e : other ≡ name = (same_iff other name).0 q in
    let k : is_kept owns_ctpp name ≡ true = subst (λ n. is_kept owns_ctpp n ≡ true) e p in
    rw (q, k) (ground arith)
kept_channel owns_ctpp false other name names before p q = rw q refl

released_channel :
    (owns_ctpp b : Bool) (other name : Str) (names : List Str) (d : Dict Str Channel)
    → IsDict d
    → is_kept owns_ctpp other ≡ false
    → same other name ≡ b
    → channel_after owns_ctpp names name (get name (pop other d))
      ≡ channel_after owns_ctpp (other ∷ names) name (get name d)
released_channel owns_ctpp true other name names d h p q =
    let e : other ≡ name = (same_iff other name).0 q in
    let k : is_kept owns_ctpp name ≡ false = subst (λ n. is_kept owns_ctpp n ≡ false) e p in
    let gone : get name (pop other d) ≡ none =
      subst (λ n. get n (pop other d) ≡ none) e (get-pop_self other d h) in
    rw (q, k, gone) (ground arith)
released_channel owns_ctpp false other name names d h p q =
    let ne : name ≢ other = λ (e : name ≡ other). ground (arith, q, same_iff other name, e) in
    rw (q, get-pop_other name other d ne) refl

ctpp_after :
    (owns_ctpp : Bool) (before : Option Channel)
    → channel_after owns_ctpp video_channel_names ctpp_name before
      ≡ (if owns_ctpp then none else before)
unfolding is_kept
ctpp_after true before = refl
ctpp_after false before = refl

cspb_after :
    (owns_ctpp : Bool) (before : Option Channel)
    → channel_after owns_ctpp video_channel_names cspb_name before
      ≡ (if owns_ctpp then none else before)
unfolding is_kept
cspb_after true before = refl
cspb_after false before = refl

not_in :
    (name : Str) (names : List Str) → All (λ other. other ≢ name) names → is_in name names ≡ false
not_in name [] h = refl
not_in name (other ∷ names) h = go (same other name) refl (not_in name names h.1)
  where
    go : (b : Bool) → same other name ≡ b → is_in name names ≡ false → b || is_in name names ≡ false
    go true e rest = absurd (h.0 ((same_iff other name).0 e))
    go false e rest = rest

untouched :
    (owns_ctpp : Bool) (name : Str) (names : List Str) (before : Option Channel)
    → All (λ other. other ≢ name) names
    → channel_after owns_ctpp names name before ≡ before
untouched owns_ctpp name names before h =
    ap (λ b. if b && not (is_kept owns_ctpp name) then none else before) (not_in name names h)

module _ {Msg : Type 0} where
  abbrev IsReleased : Bool → List Str → Client Msg → Client Msg → Type 0
  IsReleased owns_ctpp names c c' =
      ((name : Str)
        → get name c'.channels ≡ channel_after owns_ctpp names name (get name c.channels))
      × (c'.sent ≡ c.sent)
      × (c'.connected ≡ c.connected)

  release_channels-IsReleased :
      (owns_ctpp : Bool) (names : List Str) (c : Client Msg)
      → IsDict c.channels
      → IsReleased owns_ctpp names c (release_channels owns_ctpp names c)
  unfolding release_channels remove_channel
  release_channels-IsReleased owns_ctpp [] c h = ((λ name. refl), refl, refl)
  release_channels-IsReleased owns_ctpp (other ∷ names) c h =
      go (is_kept owns_ctpp other) refl (release_channels-IsReleased owns_ctpp names c h) (
        release_channels-IsReleased owns_ctpp names (remove_channel other c)
          (pop-IsDict other c.channels h))
    where
      go :
          (b : Bool)
          → is_kept owns_ctpp other ≡ b
          → IsReleased owns_ctpp names c (release_channels owns_ctpp names c)
          → IsReleased owns_ctpp names
              (remove_channel other c)
              (release_channels owns_ctpp names (remove_channel other c))
          → IsReleased owns_ctpp (other ∷ names) c (release_channels owns_ctpp (other ∷ names) c)
      go true p kept removed =
          rw (release_channels, p)
            (
              λ name. kept.0 name ∙ kept_channel owns_ctpp _ other name names _ p refl,
              kept.1,
              kept.2,
            )
      go false p kept removed =
          rw (release_channels, p)
            (
              λ name.
                  removed.0 name
                  ∙ released_channel owns_ctpp _ other name names c.channels h p refl,
              removed.1,
              removed.2,
            )

  -- After a cleanup the session is inactive, with no task and no receiver. The channels that a call
  -- opens itself are gone from the registry, and so are CTPP and CSPB where the session owns them;
  -- where it does not, these two stay as they were, like every channel of another name. Nothing is
  -- sent, and the connection is kept. A server that the coordinator keeps stays, and one of the
  -- session's own goes. No key stands twice in the registry.
  pub cleanup-IsReleased :
      (s : Call Msg)
      → IsDict s.client.channels
      → let c' = (cleanup s).client in
        let shared : Str → Option Channel =
          λ name. if s.session.owns_ctpp then none else get name s.client.channels in
        (get ctpp_name c'.channels ≡ shared ctpp_name)
        × (get cspb_name c'.channels ≡ shared cspb_name)
        × All
            (λ name. get name c'.channels ≡ none)
            (udpm_name ∷ rtpc_name ∷ rtpc2_name ∷ rtpc_device_name ∷ rtpc_device_reest_name ∷ [])
        × ((name : Str)
            → All (λ other. other ≢ name) video_channel_names
            → get name c'.channels ≡ get name s.client.channels)
        × (c'.sent ≡ s.client.sent)
        × (c'.connected ≡ s.client.connected)
        × ((cleanup s).session.active ≡ false)
        × ((cleanup s).session.rtp_receiver ≡ none)
        × ((cleanup s).session.rtsp_server
            ≡ (if s.session.external_rtsp then s.session.rtsp_server else none))
  unfolding cleanup clear_session
  cleanup-IsReleased s h =
      let released =
        release_channels-IsReleased s.session.owns_ctpp video_channel_names s.client h in
      (
        released.0 ctpp_name ∙ ctpp_after s.session.owns_ctpp _,
        released.0 cspb_name ∙ cspb_after s.session.owns_ctpp _,
        (
          released.0 udpm_name ∙ unfold is_kept in refl,
          (
            released.0 rtpc_name ∙ unfold is_kept in refl,
            (
              released.0 rtpc2_name ∙ unfold is_kept in refl,
              (
                released.0 rtpc_device_name ∙ unfold is_kept in refl,
                (released.0 rtpc_device_reest_name ∙ unfold is_kept in refl, tt),
              ),
            ),
          ),
        ),
        λ name others.
            released.0 name
            ∙ untouched s.session.owns_ctpp name video_channel_names (get name s.client.channels)
                others,
        released.1,
        released.2,
        refl,
        refl,
        refl,
      )
