-- ===== src/Gateway/Build/Finished.antt =====
-- Every build comes to an end in the history.
use docker_faas.Base.{
  ℕ, String, ◌≡◌, refl, ◌≢◌, ◌⊎◌, inl, inr, Bool, true, false, Option, none, some, arith, ◌==◌,
  Bool-cases, on_option, Result, ok, err, nat_eq, string_eq, bool_eq,
}
use docker_faas.Base.Int.{ℤ, int_eq}
use docker_faas.Base.Text.{◌<>◌}
use docker_faas.Builds.Buffer.{LimitedBuffer, new_limited_buffer}
use docker_faas.Gateway.BuildRequest.{
  BuildRequest, PreparedBuild, Builder, BuildState, build_image_tag, written, no_update,
  chosen_runtime, chosen_name, running_entry, tracker_or, wanted,
}
use docker_faas.Gateway.Names.{validate_function_name}
use docker_faas.Gateway.Built.{deploy_built_image}
use docker_faas.Builds.Tracker.{BuildUpdate, BuildTracker, add, update}
use docker_faas.Builder.{Manifest}
use docker_faas.Gateway.Services.{Services, Response}
use docker_faas.Gateway.Build.{
  with_world, add_entry, refuse, finish_build, after_image, build_named, checked_build,
  after_prepare, build_request, handle_build_function,
}

-- A history in which an entry was added, as it is or after one update of that entry
abbrev pub Noted : String → BuildTracker → BuildTracker → Type 0
Noted id added t =
    (t ≡ added) ⊎ ((u : BuildUpdate) × (now : ℕ) × (t ≡ tracker_or added (update id u now added)))

-- The answer tells the error.
abbrev pub Tells : String → Response → Type 0
Tells e r =
    ((r.status ≡ 400) × (r.body ≡ e))
    ⊎ ((r.status ≡ 500) × ((r.body ≡ "build failed: " <> e) ⊎ (r.body ≡ "deploy failed: " <> e)))

-- The last that the history was told, since the entry was added, is the entry's end: success and the
-- image with the answer 202, which has the image, or a failure and the error that another answer tells.
abbrev pub EndRecorded : {W : Type 0} → String → BuildTracker → Response × BuildState W → Type 0
EndRecorded id added out =
    (u : BuildUpdate) × (now : ℕ) × (t : BuildTracker) × Noted id added t
    × (out.1.builds ≡ some (tracker_or t (update id u now t)))
    × (((out.0.status ≡ 202) × (u.status ≡ some "success") × (u.image ≡ some out.0.body))
        ⊎ ((out.0.status ≢ 202)
            × (u.status ≡ some "failed")
            × ((e : String) × (u.error ≡ some e) × Tells e out.0)))

module _ {W : Type 0} (g : Services W) (b : Builder W) where
  refuse-EndRecorded :
      (start : ℕ) (id msg : String) (s : BuildState W) (added t : BuildTracker)
      → Noted id added t
      → s.builds ≡ some t
      → EndRecorded id added (refuse b start id msg s)
  refuse-EndRecorded start id msg s added t o h = rw h (
    _,
    b.now s.world,
    t,
    o,
    refl,
    inr ((λ q. absurd (omega (arith, q))), refl, (msg, refl, inl (refl, refl))),
  )

  finish_build-EndRecorded :
      (start : ℕ) (id image : String) (deploy : Bool) (output : LimitedBuffer)
      (out : Bool × Result (Unit {0})) (s : BuildState W) (added t : BuildTracker)
      → Noted id added t
      → s.builds ≡ some t
      → EndRecorded id added (finish_build b start id image deploy output out s)
  unfolding finish_build
  finish_build-EndRecorded start id image deploy output (updated, err e) s added t o h = rw h (
    _,
    b.now s.world,
    t,
    o,
    refl,
    inr ((λ q. absurd (omega (arith, q))), refl, (e, refl, inr (refl, inr refl))),
  )
  finish_build-EndRecorded start id image deploy output (updated, ok u) s added t o h =
      rw h (_, b.now s.world, t, o, refl, inl (refl, refl, refl))

  after_image-EndRecorded :
      (start : ℕ) (id : String) (req : BuildRequest) (manifest : Option Manifest)
      (name image : String) (output : LimitedBuffer) (r : Result (Unit {0})) (s : BuildState W)
      (added t : BuildTracker)
      → Noted id added t
      → s.builds ≡ some t
      → EndRecorded id added (after_image g b start id req manifest name image output r s)
  unfolding after_image
  after_image-EndRecorded start id req manifest name image output (err e) s added t o h = rw h (
    _,
    b.now s.world,
    t,
    o,
    refl,
    inr ((λ q. absurd (omega (arith, q))), refl, (e, refl, inr (refl, inl refl))),
  )
  after_image-EndRecorded start id req manifest name image output (ok u) s added t o h =
      let out = deploy_built_image g name image manifest s.world in
      elim (Bool-cases (wanted req.deploy)) [
        | inl e ↦ rw e (
            finish_build-EndRecorded start id image true output out.0 (with_world out.1 s) added t o
              h)
        | inr e ↦
            rw e (finish_build-EndRecorded start id image false output (false, ok tt) s added t o h)
      ]

  build_named-EndRecorded :
      (limit : ℤ) (start : ℕ) (id : String) (req : BuildRequest) (prepared : PreparedBuild)
      (name : String) (s : BuildState W) (t : BuildTracker)
      → s.builds ≡ some t
      → EndRecorded id t (build_named g b limit start id req prepared name s)
  unfolding build_named
  build_named-EndRecorded limit start id req prepared name s t h =
      let u = record no_update { name = some name; runtime = chosen_runtime prepared.manifest } in
      let noted = tracker_or t (update id u (b.now s.world) t) in
      let image = build_image_tag name (b.now s.world) in
      let out = b.build_image prepared.context_dir prepared.dockerfile image s.world in
      after_image-EndRecorded start id req prepared.manifest name image
        (written out.0.1 (new_limited_buffer limit)) out.0.0
        (record {
          world = out.1;
          builds =
              on_option s.builds none (λ t. some (tracker_or t (update id u (b.now s.world) t)));
        })
        t noted (inr (u, b.now s.world, refl)) (rw h refl)

  checked_build-EndRecorded :
      (limit : ℤ) (start : ℕ) (id : String) (req : BuildRequest) (prepared : PreparedBuild)
      (name : String) (r : Result (Unit {0})) (s : BuildState W) (t : BuildTracker)
      → s.builds ≡ some t
      → EndRecorded id t (checked_build g b limit start id req prepared name r s)
  checked_build-EndRecorded limit start id req prepared name (err e) s t h =
      refuse-EndRecorded start id e s t t (inl refl) h
  checked_build-EndRecorded limit start id req prepared name (ok u) s t h =
      build_named-EndRecorded limit start id req prepared name s t h

  after_prepare-EndRecorded :
      (limit : ℤ) (start : ℕ) (id : String) (req : BuildRequest) (r : Result PreparedBuild)
      (s : BuildState W) (t : BuildTracker)
      → s.builds ≡ some t
      → EndRecorded id t (after_prepare g b limit start id req r s)
  unfolding after_prepare
  after_prepare-EndRecorded limit start id req (err e) s t h =
      refuse-EndRecorded start id e s t t (inl refl) h
  after_prepare-EndRecorded limit start id req (ok prepared) s t h =
      let name = chosen_name req prepared.manifest in
      elim (Bool-cases (name == "")) [
        | inl e ↦ rw e (refuse-EndRecorded start id _ s t t (inl refl) h)
        | inr e ↦ rw e (
            checked_build-EndRecorded limit start id req prepared name (validate_function_name name)
              s t h)
      ]

  -- Where the gateway keeps a history and the request can be parsed, the build handler adds an entry that
  -- runs, and the last that it tells the history is how the build of that entry ended: a success with
  -- the image that the answer 202 names, or a failure with the error that any other answer tells.
  pub handle_build_function-EndRecorded :
      (limit : ℤ) (s : BuildState W) (t : BuildTracker) (req : BuildRequest)
      → s.builds ≡ some t
      → (b.parse_build_request s.world).0 ≡ ok req
      → let start = b.now s.world in
        let parsed = with_world (b.parse_build_request s.world).1 s in
        let out = add_entry b (running_entry req start) parsed in
        (added : BuildTracker) × (out.1.builds ≡ some added)
        × EndRecorded out.0 added (handle_build_function g b limit s)
  unfolding handle_build_function build_request add_entry
  handle_build_function-EndRecorded limit s t req h e =
      let start = b.now s.world in
      let world = (b.parse_build_request s.world).1 in
      let made = b.generate_id world in
      let out = add made.0 (b.now made.1) (running_entry req start) t in
      let prepared = b.prepare_build_context req made.1 in
      rw (e, h)
        (
          out.1,
          refl,
          after_prepare-EndRecorded limit start out.0.id req prepared.0
              (record { world = prepared.1; builds = some out.1 }) out.1 refl,
        )
