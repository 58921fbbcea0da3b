-- ===== src/Builder/Templates.antt =====
-- pkg/builder/templates.go: the Dockerfile that is generated from a manifest. What `os.Stat` says of a
-- file of the context is given: `has_file` of its name.
use docker_faas.Base.{
  String, Bool, true, false, ◌||◌, Option, none, some, List, [], ◌∷◌, if◌then◌else◌, ◌==◌, Result,
  ok, err, nat_eq, string_eq, bool_eq,
}
use docker_faas.Base.Text.{codes, to_lower, same_text, ◌<>◌}
use docker_faas.Builder.{Manifest, entries}

abbrev pub fwatchdog_version : String
fwatchdog_version = "0.11.0"

unfoldable pub includes_dependency : List String → String → Bool
includes_dependency [] name = false
includes_dependency (dep ∷ deps) name =
    let rest = includes_dependency deps name in if dep == name then true else rest

-- The part that the templates share
abbrev install_watchdog : String
install_watchdog =
    "RUN ARCH=\"$(uname -m)\" && \\\n" <> "  case \"$ARCH\" in \\\n"
    <> "    x86_64|amd64) WATCHDOG=\"fwatchdog-amd64\" ;; \\\n"
    <> "    aarch64|arm64) WATCHDOG=\"fwatchdog-arm64\" ;; \\\n"
    <> "    armv7l|armv7|armhf) WATCHDOG=\"fwatchdog-arm\" ;; \\\n"
    <> "    *) echo \"Unsupported arch: $ARCH\" >&2; exit 1 ;; \\\n" <> "  esac && \\\n"
    <> "  curl -sSL -o /usr/local/bin/fwatchdog \"https://github.com/openfaas/of-watchdog/releases/download/"
    <> fwatchdog_version <> "/${WATCHDOG}\" && \\\n" <> "  chmod +x /usr/local/bin/fwatchdog\n"
    <> "\n"

-- The end of each template
abbrev entry : Manifest → String
entry manifest =
    "ENV fprocess=\"" <> manifest.command <> "\"\n" <> "ENV mode=\"streaming\"\n" <> "\n"
    <> "EXPOSE 8080\n" <> "CMD [\"fwatchdog\"]\n"

abbrev python_with_requirements : Manifest → String
python_with_requirements manifest =
    "FROM python:3.11-slim AS deps\n"
    <> "\n"
    <> "WORKDIR /tmp/deps\n"
    <> "COPY requirements.txt ./\n"
    <> "RUN pip install --no-cache-dir uv && \\\n"
    <> "    uv pip install --system --compile -r requirements.txt\n"
    <> "\n"
    <> "FROM python:3.11-slim\n"
    <> "\n"
    <> "RUN apt-get update && apt-get install -y curl ca-certificates && rm -rf /var/lib/apt/lists/*\n"
    <> install_watchdog
    <> "WORKDIR /home/app\n"
    <> "COPY . .\n"
    <> "COPY --from=deps /usr/local /usr/local\n"
    <> "RUN python -m compileall /home/app\n"
    <> "\n"
    <> entry manifest

abbrev plain_python : Manifest → String
plain_python manifest =
    "FROM python:3.11-slim\n"
    <> "\n"
    <> "RUN apt-get update && apt-get install -y curl ca-certificates && rm -rf /var/lib/apt/lists/*\n"
    <> install_watchdog
    <> "WORKDIR /home/app\n"
    <> "COPY . .\n"
    <> "RUN python -m compileall /home/app\n"
    <> "\n"
    <> entry manifest

unfoldable pub python_dockerfile : (String → Bool) → Manifest → String
unfolding includes_dependency
python_dockerfile has_file manifest =
    if has_file "requirements.txt"
      || includes_dependency (entries manifest.dependencies) "requirements.txt"
    then python_with_requirements manifest
    else plain_python manifest

abbrev install_command : (String → Bool) → Manifest → String
install_command has_file manifest =
    if has_file "package-lock.json"
    then "RUN npm ci\n"
    else if has_file "package.json"
        || includes_dependency (entries manifest.dependencies) "package.json"
    then "RUN npm install\n"
    else ""

unfoldable pub node_dockerfile : (String → Bool) → Manifest → String
unfolding includes_dependency
node_dockerfile has_file manifest =
    "FROM node:20-slim\n"
    <> "\n"
    <> "WORKDIR /home/app\n"
    <> "COPY . .\n"
    <> install_command has_file manifest
    <> "\n"
    <> "RUN apt-get update && apt-get install -y curl ca-certificates && rm -rf /var/lib/apt/lists/*\n"
    <> install_watchdog
    <> entry manifest

build_lines : List String → String
build_lines [] = ""
build_lines (step ∷ steps) = "RUN " <> step <> "\n" <> build_lines steps

abbrev build_steps : List String → List String
build_steps [] = "go mod download" ∷ "go build -o app ./" ∷ []
build_steps (step ∷ steps) = step ∷ steps

unfoldable pub go_dockerfile : Manifest → String
unfolding build_lines
go_dockerfile manifest =
    "FROM golang:1.22 AS builder\n"
    <> "\n"
    <> "WORKDIR /src\n"
    <> "COPY . .\n"
    <> build_lines (build_steps (entries manifest.build))
    <> "\n"
    <> "\n"
    <> "FROM debian:bookworm-slim\n"
    <> "WORKDIR /home/app\n"
    <> "RUN apt-get update && apt-get install -y curl ca-certificates && rm -rf /var/lib/apt/lists/*\n"
    <> install_watchdog
    <> "COPY --from=builder /src /home/app\n"
    <> "\n"
    <> entry manifest

unfoldable pub bash_dockerfile : Manifest → String
bash_dockerfile manifest =
    "FROM debian:bookworm-slim\n"
    <> "\n"
    <> "WORKDIR /home/app\n"
    <> "COPY . .\n"
    <> "RUN apt-get update && apt-get install -y bash curl ca-certificates && rm -rf /var/lib/apt/lists/*\n"
    <> install_watchdog
    <> entry manifest

-- The runtime in lower case, compared to the four that are known
abbrev runtime_is : String → String → Bool
runtime_is runtime name = same_text (to_lower runtime) (codes name)

-- The text of the error has the runtime in lower case, which `lower` makes of it.
unfoldable pub generate_dockerfile :
    (String → String) → (String → Bool) → Option Manifest → Result String
unfolding python_dockerfile node_dockerfile go_dockerfile bash_dockerfile
generate_dockerfile lower has_file none = err "manifest is required to generate Dockerfile"
generate_dockerfile lower has_file (some manifest) =
    if manifest.runtime == ""
    then err "runtime is required in docker-faas.yaml"
    else if runtime_is manifest.runtime "python"
    then ok (python_dockerfile has_file manifest)
    else if runtime_is manifest.runtime "node"
    then ok (node_dockerfile has_file manifest)
    else if runtime_is manifest.runtime "go"
    then ok (go_dockerfile manifest)
    else if runtime_is manifest.runtime "bash"
    then ok (bash_dockerfile manifest)
    else err ("unsupported runtime: " <> lower manifest.runtime)
