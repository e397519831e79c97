-- ===== src/Session/Loading.antt =====
-- The provider's `loading`.
use scan_tls.Common.{
  Text, Bool, true, false, List, [], ◌∷◌, ◌++◌, Option, none, some, ◌≡◌, refl, ◌∙◌,
}
use scan_tls.Api.{Body, Response, Outcome, resolved, api_error, type_error, syntax_error, receive}
use scan_tls.Session.{
  Opened, no_data, no_user, opened, Client, SessionEvent, refreshed, logged_in, logged_out, called,
  uploaded, fetched, session_step, open_session, run_session, apply, hear, login_end, logout_end,
}

module _ (parse : Text → Option Body) (accepts prefers_dark : Bool) where
  hear_loading : (b : Bool) (c : Client) → (hear b c).loading ≡ c.loading
  hear_loading true c = refl
  hear_loading false c = refl

  apply_loading : (o : Opened) (c : Client) → (apply accepts prefers_dark o c).loading ≡ c.loading
  unfolding apply
  apply_loading no_data c = refl
  apply_loading (no_user token) c = refl
  apply_loading (opened d) c = refl

  login_end_loading :
      (o : Outcome) (c : Client) → (login_end accepts prefers_dark o c).loading ≡ c.loading
  unfolding login_end
  login_end_loading (resolved d) c = apply_loading (open_session d) c
  login_end_loading (api_error status m) c = refl
  login_end_loading type_error c = refl
  login_end_loading syntax_error c = refl

  logout_end_loading : (o : Outcome) (c : Client) → (logout_end o c).loading ≡ c.loading
  logout_end_loading (resolved d) c = refl
  logout_end_loading (api_error status m) c = refl
  logout_end_loading type_error c = refl
  logout_end_loading syntax_error c = refl

  step_loading :
      (c : Client) (e : SessionEvent)
      → c.loading ≡ false
      → (session_step parse accepts prefers_dark c e).loading ≡ false
  unfolding session_step
  step_loading c (refreshed none) h = refl
  step_loading c (refreshed (some r)) h = refl
  step_loading c (logged_in none) h = h
  step_loading c (logged_in (some r)) h =
      login_end_loading (receive parse r).0 _ ∙ (hear_loading (receive parse r).1 c ∙ h)
  step_loading c (logged_out none) h = h
  step_loading c (logged_out (some r)) h =
      logout_end_loading (receive parse r).0 _ ∙ (hear_loading (receive parse r).1 c ∙ h)
  step_loading c (called none) h = h
  step_loading c (called (some r)) h = hear_loading (receive parse r).1 c ∙ h
  step_loading c (uploaded answer) h = h
  step_loading c (fetched answer) h = h

  run_loading :
      (events : List SessionEvent) (c : Client)
      → c.loading ≡ false
      → (run_session parse accepts prefers_dark c events).loading ≡ false
  run_loading [] c h = h
  run_loading (e ∷ events) c h = run_loading events _ (step_loading c e h)

  -- The provider has stopped loading once a refresh is answered, whatever comes before and behind it.
  pub run_session_loading :
      (before after : List SessionEvent) (answer : Option Response) (c : Client)
      → (run_session parse accepts prefers_dark c (before ++ refreshed answer ∷ after)).loading
        ≡ false
  run_session_loading [] after answer c = run_loading after _ (refreshed_loading answer c)
    where
      refreshed_loading :
          (answer : Option Response) (c : Client)
          → (session_step parse accepts prefers_dark c (refreshed answer)).loading ≡ false
      refreshed_loading none c = unfold session_step in refl
      refreshed_loading (some r) c = unfold session_step in refl
  run_session_loading (e ∷ before) after answer c =
      run_session_loading before after answer (session_step parse accepts prefers_dark c e)
