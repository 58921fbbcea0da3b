-- ===== src/Gateway/Build.antt =====
-- `HandleBuildFunction` of pkg/gateway/build_handlers.go: the course of a build and what the history
-- of builds is told of it. Log lines are left out.
pub mod Finished
pub mod Tests
use docker_faas.Base.{
  ℕ, String, Bool, true, false, Option, none, some, if◌then◌else◌, ◌==◌, on_option, Result, ok, err,
  nat_eq, string_eq, bool_eq,
}
use docker_faas.Base.Int.{ℤ, int_eq}
use docker_faas.Base.Text.{◌<>◌}
use docker_faas.Builds.Tracker.{BuildEntry, BuildUpdate, add, update}
use docker_faas.Builder.{Manifest}
use docker_faas.Builds.Buffer.{LimitedBuffer, new_limited_buffer}
use docker_faas.Gateway.Services.{Services, Response, respond}
use docker_faas.Gateway.Names.{validate_function_name}
use docker_faas.Gateway.Built.{deploy_built_image}
use docker_faas.Gateway.BuildRequest.{
  BuildRequest, PreparedBuild, Builder, BuildState, build_image_tag, written, no_update, ended,
  chosen_runtime, chosen_name, running_entry, tracker_or, wanted,
}

module _ {W : Type 0} where
  -- `if g.builds != nil { g.builds.Update(id, u) }`: the answer is dropped.
  abbrev pub recorded : Builder W → String → BuildUpdate → BuildState W → BuildState W
  recorded b id u s = record s {
    builds = on_option s.builds none (λ t. some (tracker_or t (update id u (b.now s.world) t)));
  }

  abbrev pub with_world : W → BuildState W → BuildState W
  with_world w s = record s { world = w }

  -- `g.builds.Add`, where there is a history
  unfoldable pub add_entry : Builder W → BuildEntry → BuildState W → String × BuildState W
  add_entry b entry s = elim s.builds [
    | none ↦ ("", s)
    | some t ↦
        let made = b.generate_id s.world in
        let out = add made.0 (b.now made.1) entry t in
        (out.0.id, record { world = made.1; builds = some out.1 })
  ]

  -- The end of a build that fails before an image is built
  abbrev pub refuse : Builder W → ℕ → String → String → BuildState W → Response × BuildState W
  refuse b start id msg s = (
    respond 400 msg,
    recorded b id (record (ended "failed" start (b.now s.world)) { error = some msg }) s,
  )

  -- The update of a build whose image was attempted
  abbrev with_output : Builder W → LimitedBuffer → BuildUpdate → BuildUpdate
  with_output b output u = record u {
    output = some (b.text_of output.buf);
    truncated = some output.truncated;
  }

  -- After the deployment, or without one
  unfoldable pub finish_build :
      Builder W
      → ℕ
      → String
      → String
      → Bool
      → LimitedBuffer
      → Bool × Result (Unit {0})
      → BuildState W
      → Response × BuildState W
  finish_build b start id image deploy output (updated, err e) s = (
    respond 500 ("deploy failed: " <> e),
    recorded b id
        (with_output b output
          (record (ended "failed" start (b.now s.world)) { error = some e; image = some image }))
        s,
  )
  finish_build b start id image deploy output (updated, ok u) s = (
    respond 202 image,
    recorded b id
        (with_output b output (record (ended "success" start (b.now s.world)) {
          image = some image;
          deployed = some deploy;
          updated = some updated;
        }))
        s,
  )

  unfoldable pub after_image :
      Services W
      → Builder W
      → ℕ
      → String
      → BuildRequest
      → Option Manifest
      → String
      → String
      → LimitedBuffer
      → Result (Unit {0})
      → BuildState W
      → Response × BuildState W
  unfolding finish_build
  after_image g b start id req manifest name image output (err e) s = (
    respond 500 ("build failed: " <> e),
    recorded b id
        (with_output b output (record (ended "failed" start (b.now s.world)) { error = some e })) s,
  )
  after_image g b start id req manifest name image output (ok u) s =
      let deploy = wanted req.deploy in
      let out = deploy_built_image g name image manifest s.world in
      if deploy
      then finish_build b start id image true output out.0 (with_world out.1 s)
      else finish_build b start id image false output (false, ok tt) s

  -- The build of a function whose name is valid
  unfoldable pub build_named :
      Services W
      → Builder W
      → ℤ
      → ℕ
      → String
      → BuildRequest
      → PreparedBuild
      → String
      → BuildState W
      → Response × BuildState W
  unfolding after_image written
  build_named g b limit start id req prepared name s =
      let noted =
        recorded b id
          (record no_update { name = some name; runtime = chosen_runtime prepared.manifest }) s in
      let image = build_image_tag name (b.now noted.world) in
      let out = b.build_image prepared.context_dir prepared.dockerfile image noted.world in
      after_image g b start id req prepared.manifest name image
        (written out.0.1 (new_limited_buffer limit)) out.0.0 (with_world out.1 noted)

  abbrev checked_build :
      Services W
      → Builder W
      → ℤ
      → ℕ
      → String
      → BuildRequest
      → PreparedBuild
      → String
      → Result (Unit {0})
      → BuildState W
      → Response × BuildState W
  checked_build g b limit start id req prepared name (err e) s = refuse b start id e s
  checked_build g b limit start id req prepared name (ok u) s =
      build_named g b limit start id req prepared name s

  unfoldable pub after_prepare :
      Services W
      → Builder W
      → ℤ
      → ℕ
      → String
      → BuildRequest
      → Result PreparedBuild
      → BuildState W
      → Response × BuildState W
  unfolding build_named
  after_prepare g b limit start id req (err e) s = refuse b start id e s
  after_prepare g b limit start id req (ok prepared) s =
      let name = chosen_name req prepared.manifest in
      if name == ""
      then refuse b start id "name is required (request or docker-faas.yaml)" s
      else checked_build g b limit start id req prepared name (validate_function_name name) s

  -- The build of a request that could be parsed, and the id of its entry
  unfoldable pub build_request :
      Services W
      → Builder W
      → ℤ
      → ℕ
      → BuildRequest
      → BuildState W
      → String × (Response × BuildState W)
  unfolding after_prepare running_entry add_entry
  build_request g b limit start req s =
      let added = add_entry b (running_entry req start) s in
      let prepared = b.prepare_build_context req added.1.world in
      (
        added.0,
        after_prepare g b limit start added.0 req prepared.0 (with_world prepared.1 added.1),
      )

  abbrev cleaned : Builder W → Response × BuildState W → Response × BuildState W
  cleaned b (r, s) = (r, with_world (b.cleanup s.world) s)

  abbrev parsed_build :
      Services W → Builder W → ℤ → ℕ → Result BuildRequest → BuildState W → Response × BuildState W
  parsed_build g b limit start (err e) s = (respond 400 e, s)
  parsed_build g b limit start (ok req) s = cleaned b (build_request g b limit start req s).1

  -- The body of the answer 202 is the image.
  unfoldable pub handle_build_function :
      Services W → Builder W → ℤ → BuildState W → Response × BuildState W
  unfolding build_request
  handle_build_function g b limit s =
      let start = b.now s.world in
      let parsed = b.parse_build_request s.world in
      parsed_build g b limit start parsed.0 (with_world parsed.1 s)
