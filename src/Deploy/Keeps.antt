-- ===== src/Deploy/Keeps.antt =====
-- Which entries of the route table a script's call leaves alone, composed along its binds.
use ouf_api_gateway.Base.{
  ap, ℕ, Bool, true, false, Option, none, some, String, List, [], ◌∷◌, ◌==◌, string_eq, ◌≡◌, refl,
  Outcome, ok, raised, ◌∙◌,
}
use ouf_api_gateway.Base.Dict.{Dict}
use ouf_api_gateway.Document.{Value}
use ouf_api_gateway.Deploy.{
  null, continued, Method, get, put, Reply, Admin, Call, ◌>>=◌, DeployError, lift, check, replied,
  probed, saved,
}
use ouf_api_gateway.Deploy.Routes.{
  snapshot_one, send, probe, save, write_route, written_as, confirm, write_routes, probe_routes,
  install, snapshot_each, snapshot, text_at,
}
use ouf_api_gateway.Deploy.Table.{IsAdmin}
use ouf_api_gateway.Deploy.Validated.{IsOther}

module _ {W : Type 0} (admin : Admin W) {table : W → String → Option Value} {filled : Value → Value}
    (laws : IsAdmin admin table filled) where
  -- Where `P` holds of a name, the call leaves its entry as it was.
  pub record Keeps {A : Type 0} (P : String → Type 0) (m : Call W A) : Type 0 where
    pub at : (w : W) (j : String) → P j → table (m w).1 j ≡ table w j

  continued-keeps :
      {A B : Type 0} (j : String) (old : Option Value) (x : Outcome DeployError A × W)
      (f : A → Call W B)
      → table x.1 j ≡ old
      → ((a : A) (w : W) → table w j ≡ old → table (f a w).1 j ≡ old)
      → table (continued x f).1 j ≡ old
  unfolding continued
  continued-keeps j old (ok a, w) f h kf = kf a w h
  continued-keeps j old (raised e, w) f h kf = h

  pub Keeps-bind :
      {A B : Type 0} (P : String → Type 0) (m : Call W A) (f : A → Call W B)
      → Keeps P m
      → ((a : A) → Keeps P (f a))
      → Keeps P (m >>= f)
  unfolding ◌>>=◌
  Keeps-bind P m f km kf = record {
    at = λ w j p.
        continued-keeps j (table w j) (m w) f (km.at w j p) (λ a w' h. (kf a).at w' j p ∙ h);
  }

  replied-world : (x : Option Reply × W) → (replied x).1 ≡ x.1
  replied-world (none, w) = refl
  replied-world (some r, w) = refl

  probed-world : (x : Option ℕ × W) → (probed x).1 ≡ x.1
  probed-world (none, w) = refl
  probed-world (some r, w) = refl

  saved-world : (x : Bool × W) → (saved x).1 ≡ x.1
  saved-world (true, w) = refl
  saved-world (false, w) = refl

  pub Keeps-lift : {A : Type 0} (P : String → Type 0) (r : Outcome DeployError A) → Keeps P (lift r)
  unfolding lift
  Keeps-lift P r = record { at = λ w j p. refl }

  pub Keeps-raised :
      {A B : Type 0} (P : String → Type 0) (e : DeployError) (f : A → Call W B)
      → Keeps P (lift (raised e) >>= f)
  unfolding lift ◌>>=◌
  Keeps-raised P e f = record { at = λ w j p. refl }

  pub Keeps-ok :
      {A B : Type 0} (P : String → Type 0) (a : A) (f : A → Call W B)
      → Keeps P (f a)
      → Keeps P (lift (ok a) >>= f)
  unfolding lift ◌>>=◌
  Keeps-ok P a f h = record { at = h.at }

  pub Keeps-check : (P : String → Type 0) (b : Bool) (e : DeployError) → Keeps P (check b e)
  unfolding check
  Keeps-check P true e = record { at = λ w j p. refl }
  Keeps-check P false e = record { at = λ w j p. refl }

  pub Keeps-send :
      (P : String → Type 0) (m : Method) (id : String) (v : Value)
      → ((j : String) → P j → (id == j) ≡ false)
      → Keeps P (send admin m id v)
  unfolding send
  Keeps-send P m id v other = record {
    at = λ w j p.
        ap (λ w'. table w' j) (replied-world (admin.route m id v w))
        ∙ laws.other_keeps m id v w j (other j p);
  }

  pub Keeps-get : (P : String → Type 0) (id : String) (v : Value) → Keeps P (send admin get id v)
  unfolding send
  Keeps-get P id v = record {
    at = λ w j p.
        ap (λ w'. table w' j) (replied-world (admin.route get id v w)) ∙ laws.get_keeps id v w j;
  }

  pub Keeps-probe :
      (P : String → Type 0) (path method : String) (v : Value) → Keeps P (probe admin path method v)
  unfolding probe
  Keeps-probe P path method v = record {
    at = λ w j p.
        ap (λ w'. table w' j) (probed-world (admin.probe path method v w))
        ∙ laws.probe_keeps path method v w j;
  }

  pub Keeps-save : (P : String → Type 0) (d : Dict Value) → Keeps P (save admin d)
  unfolding save
  Keeps-save P d = record {
    at = λ w j p. ap (λ w'. table w' j) (saved-world (admin.save d w)) ∙ laws.save_keeps d w j;
  }

  pub snapshot_one-Keeps : (P : String → Type 0) (id : String) → Keeps P (snapshot_one admin id)
  unfolding snapshot_one
  snapshot_one-Keeps P id =
      Keeps-bind P _ _ (Keeps-get P id null)
        (λ r. Keeps-bind P _ _ (Keeps-check P _ _) (λ _. Keeps-lift P _))

  snapshot_each-Keeps :
      (P : String → Type 0) (ids : List String) → Keeps P (snapshot_each admin ids)
  unfolding snapshot_each
  snapshot_each-Keeps P [] = Keeps-lift P _
  snapshot_each-Keeps P (id ∷ ids) =
      Keeps-bind P _ _ (snapshot_one-Keeps P id)
        (λ old. Keeps-bind P _ _ (snapshot_each-Keeps P ids) (λ rest. Keeps-lift P _))

  pub snapshot-Keeps : (P : String → Type 0) (ids : List String) → Keeps P (snapshot admin ids)
  unfolding snapshot
  snapshot-Keeps P ids =
      Keeps-bind P _ _ (snapshot_each-Keeps P _)
        (λ d. Keeps-bind P _ _ (Keeps-save P d) (λ _. Keeps-lift P _))

  pub confirm-Keeps :
      (P : String → Type 0) (route : Value) (id : String) → Keeps P (confirm admin route id)
  unfolding confirm
  confirm-Keeps P route id =
      Keeps-bind P _ _ (Keeps-get P id null)
        (λ again. Keeps-bind P _ _ (Keeps-lift P _) (λ actual. Keeps-check P _ _))

  pub written_as-Keeps :
      (P : String → Type 0) (route : Value) (id : String)
      → ((j : String) → P j → (id == j) ≡ false)
      → Keeps P (written_as admin route id)
  unfolding written_as
  written_as-Keeps P route id other =
      Keeps-bind P _ _ (Keeps-send P put id route other)
        (λ r. Keeps-bind P _ _ (Keeps-check P _ _) (λ _. confirm-Keeps P route id))

  write_named-Keeps :
      (P : String → Type 0) (route : Value) (r : Outcome DeployError String)
      → ((j : String) → P j → (id : String) → r ≡ ok id → (id == j) ≡ false)
      → Keeps P (lift r >>= written_as admin route)
  write_named-Keeps P route (raised e) other = Keeps-raised P e _
  write_named-Keeps P route (ok id) other =
      Keeps-ok P id _ (written_as-Keeps P route id (λ j p. other j p id refl))

  pub write_route-Keeps :
      (P : String → Type 0) (route : Value)
      → ((j : String) → P j → (id : String) → text_at "id" route ≡ ok id → (id == j) ≡ false)
      → Keeps P (write_route admin route)
  unfolding write_route
  write_route-Keeps P route other = write_named-Keeps P route (text_at "id" route) other

  pub write_routes-Keeps :
      (routes : List Value) → Keeps (IsOther routes) (write_routes admin routes)
  unfolding write_routes
  write_routes-Keeps [] = Keeps-lift _ _
  write_routes-Keeps (route ∷ routes) =
      Keeps-bind _ _ _ (write_route-Keeps (IsOther (route ∷ routes)) route (λ j p. p.0))
        (λ _. record { at = λ w j p. (write_routes-Keeps routes).at w j p.1 })

  pub probe_routes-Keeps :
      (P : String → Type 0) (anonymous_probe : Value → Value) (routes : List Value)
      → Keeps P (probe_routes admin anonymous_probe routes)
  unfolding probe_routes
  probe_routes-Keeps P anonymous_probe [] = Keeps-lift P _
  probe_routes-Keeps P anonymous_probe (route ∷ routes) = Keeps-bind P _ _ (Keeps-lift P _) (λ uri.
      Keeps-bind P _ _ (Keeps-lift P _) (λ methods. Keeps-bind P _ _ (Keeps-lift P _) (λ method.
        Keeps-bind P _ _ (Keeps-probe P _ _ _) (λ code.
          Keeps-bind P _ _ (Keeps-check P _ _)
            (λ _. probe_routes-Keeps P anonymous_probe routes)))))

  pub install-Keeps :
      (anonymous_probe : Value → Value) (routes : List Value)
      → Keeps (IsOther routes) (install admin anonymous_probe routes)
  unfolding install
  install-Keeps anonymous_probe routes =
      Keeps-bind _ _ _ (write_routes-Keeps routes)
        (λ _. probe_routes-Keeps _ anonymous_probe routes)
