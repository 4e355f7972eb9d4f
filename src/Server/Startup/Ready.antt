-- ===== src/Server/Startup/Ready.antt =====
-- What holds of the daemon that run starts.
use fwknop_go.Base.{
  ℕ, ◌≡◌, refl, ap, ◌∙◌, Bool, true, false, Option, none, some, List, [], ◌∷◌, if◌then◌else◌,
}
use fwknop_go.Server.Access.{AccessStanza, Net, Resolved, resolved, refused, resolve, resolve_all}
use fwknop_go.Server.Access.Resolving.{IsResolved, resolve-IsResolved, resolves_both, same_resolved}
use fwknop_go.Server.ActionConfig.{ActionsConfig}
use fwknop_go.Server.Actions.{Templates, Manager, Host, new_manager, new_actions_manager, managed}
use fwknop_go.Server.Daemon.{Setup, Daemon, Reachable, starts}
use fwknop_go.Server.Startup.{
  Settings, Machine, Start, shows_version, shows_status, asks_stop, asks_restart, dumps, fails,
  bad_log, serves, resolved_stanzas, if_resolved, load_access_config, setup, first_state,
  after_init, after_validate, with_manager, with_actions, with_stanzas, run_server,
}

-- Each stanza is what one of the file resolves to.
abbrev pub AreResolved : List AccessStanza → List AccessStanza → Type 0
AreResolved [] [] = Unit
AreResolved [] (t ∷ ts) = ⊥
AreResolved (a ∷ rest) [] = ⊥
AreResolved (a ∷ rest) (t ∷ ts) = IsResolved a t × AreResolved rest ts

pub record IsReady {W : Type 0} (m : Machine W) (cfg : Settings) (e : Setup W) (d : Daemon W)
    : Type 0 where
  pub raw : List AccessStanza
  pub file : m.read_access cfg.access_file ≡ some raw
  pub stanzas : List AccessStanza
  pub good : AreResolved raw stanzas
  pub templates : Templates
  pub world : W
  pub set_up : e ≡ setup m cfg stanzas templates
  pub fresh : d ≡ first_state m cfg (new_manager m.world) world

resolve_all-AreResolved :
    (net : Net) (raw ts : List AccessStanza)
    → resolve_all net raw ≡ resolved ts
    → AreResolved raw ts
unfolding resolve_all
resolve_all-AreResolved net [] ts e = rw (← same_resolved e) tt
resolve_all-AreResolved net (a ∷ raw) ts e =
    let (t, e1, f1) = resolves_both (resolve net a) _ e in
    let (us, e2, f2) = resolves_both (resolve_all net raw) _ f1 in
    rw (← same_resolved f2) (resolve-IsResolved net a t e1, resolve_all-AreResolved net raw us e2)

managed_new :
    {W : Type 0} (r : Option Templates) (w : W) (templates : Templates) (am : Manager W)
    → managed r w ≡ some (templates, am)
    → am ≡ new_manager w
managed_new none w templates am f = absurd (cc)
managed_new (some t) w templates am f = cc

manager_new :
    {W : Type 0} (host : Host W) (actions : ActionsConfig) (w : W) (templates : Templates)
    (am : Manager W)
    → new_actions_manager host actions w ≡ some (templates, am)
    → am ≡ new_manager w
unfolding new_actions_manager
manager_new host actions w templates am f = managed_new _ w templates am f

if_resolved_lem :
    (r : Resolved (List AccessStanza)) (ts : List AccessStanza)
    → if_resolved r ≡ some ts
    → r ≡ resolved ts
if_resolved_lem (resolved us) ts f = cc
if_resolved_lem (refused e) ts f = absurd (cc)

module _ {W : Type 0} (m : Machine W) (cfg : Settings) (e : Setup W) (d : Daemon W) where
  -- What run serves with, once it has its stanzas.
  record IsServed (stanzas : List AccessStanza) : Type 0 where
    templates : Templates
    world : W
    set_up : e ≡ setup m cfg stanzas templates
    fresh : d ≡ first_state m cfg (new_manager m.world) world

  served : {a : Setup W} {b : Daemon W} → serves a b ≡ serves e d → (e ≡ a) × (d ≡ b)
  served {a} {b} f = let p : e ≡ a = cc in let q : d ≡ b = cc in (p, q)

  -- A branch that does not serve is not taken.
  not_then :
      (b : Bool) (x y : Start W)
      → ¬ (x ≡ serves e d)
      → (if b then x else y) ≡ serves e d
      → y ≡ serves e d
  not_then true x y n f = absurd (n f)
  not_then false x y n f = f

  not_else :
      (b : Bool) (x y : Start W)
      → ¬ (y ≡ serves e d)
      → (if b then x else y) ≡ serves e d
      → x ≡ serves e d
  not_else true x y n f = f
  not_else false x y n f = absurd (n f)

  init-IsServed :
      (stanzas : List AccessStanza) (templates : Templates) (am : Manager W) (r : W × Bool)
      → am ≡ new_manager m.world
      → after_init m cfg stanzas templates am r ≡ serves e d
      → IsServed stanzas
  init-IsServed stanzas templates am (w, false) new f = absurd (cc)
  init-IsServed stanzas templates am (w, true) new f =
      let (set_up, fresh) = served f in
      record {
        templates = templates;
        world = w;
        set_up = set_up;
        fresh = fresh ∙ ap (λ x. first_state m cfg x w) new;
      }

  validate-IsServed :
      (stanzas : List AccessStanza) (actions : ActionsConfig) (templates : Templates)
      (am : Manager W) (r : W × Bool)
      → am ≡ new_manager m.world
      → after_validate m cfg stanzas actions templates am r ≡ serves e d
      → IsServed stanzas
  validate-IsServed stanzas actions templates am (w, false) new f = absurd (cc)
  validate-IsServed stanzas actions templates am (w, true) new f =
      init-IsServed stanzas templates am _ new f

  manager-IsServed :
      (stanzas : List AccessStanza) (actions : ActionsConfig) (r : Option (Templates × Manager W))
      → ((templates : Templates) (am : Manager W)
          → r ≡ some (templates, am)
          → am ≡ new_manager m.world)
      → with_manager m cfg stanzas actions r ≡ serves e d
      → IsServed stanzas
  manager-IsServed stanzas actions none new f = absurd (cc)
  manager-IsServed stanzas actions (some (templates, am)) new f =
      validate-IsServed stanzas actions templates am _ (new templates am refl) f

  actions-IsServed :
      (stanzas : List AccessStanza) (r : Option ActionsConfig)
      → with_actions m cfg stanzas r ≡ serves e d
      → IsServed stanzas
  actions-IsServed stanzas none f = absurd (cc)
  actions-IsServed stanzas (some actions) f =
      manager-IsServed stanzas actions _ (manager_new m.host actions m.world) f

  stanzas-IsServed :
      (r : Option (List AccessStanza))
      → with_stanzas m cfg r ≡ serves e d
      → (stanzas : List AccessStanza) × (r ≡ some stanzas) × IsServed stanzas
  stanzas-IsServed none f = absurd (cc)
  stanzas-IsServed (some stanzas) f = (
    stanzas,
    refl,
    actions-IsServed stanzas _ (
        not_else m.log_opens _ (fails bad_log) (λ g. cc)
          (not_then cfg.dump_config (dumps stanzas) _ (λ g. cc) f)),
  )

  stanzas-AreResolved :
      (r : Option (List AccessStanza)) (stanzas : List AccessStanza)
      → resolved_stanzas m r ≡ some stanzas
      → (raw : List AccessStanza) × (r ≡ some raw) × AreResolved raw stanzas
  stanzas-AreResolved none stanzas f = absurd (cc)
  stanzas-AreResolved (some raw) stanzas f = (
    raw,
    refl,
    resolve_all-AreResolved m.net raw stanzas (if_resolved_lem (resolve_all m.net raw) stanzas f),
  )

  from_stanzas :
      (stanzas : List AccessStanza) × (load_access_config m cfg.access_file ≡ some stanzas)
        × IsServed stanzas
      → IsReady m cfg e d × ((now : ℕ) → Reachable e now d)
  unfolding load_access_config
  from_stanzas (stanzas, loaded, s) =
      let (raw, file, good) = stanzas-AreResolved (m.read_access cfg.access_file) stanzas loaded in
      (
        record {
          raw = raw;
          file = file;
          stanzas = stanzas;
          good = good;
          templates = s.templates;
          world = s.world;
          set_up = s.set_up;
          fresh = s.fresh;
        },
        (λ now. rw s.fresh (starts now _ s.world)),
      )

  -- If run comes to serve, every stanza of the file has resolved to the stanza in its place, the
  -- cache is empty and keeps a digest for the maximum age of a packet, no rule is open and no timer
  -- runs, and so the daemon is at a start of its steps.
  pub run_server-IsReady :
      run_server m cfg ≡ serves e d → IsReady m cfg e d × ((now : ℕ) → Reachable e now d)
  unfolding run_server load_access_config
  run_server-IsReady f = from_stanzas (
      stanzas-IsServed _ (
        not_then cfg.restart asks_restart _ (λ g. cc)
          (not_then cfg.kill asks_stop _ (λ g. cc)
            (not_then cfg.status shows_status _ (λ g. cc)
              (not_then cfg.show_version shows_version _ (λ g. cc) f)))))
