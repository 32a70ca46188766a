-- ===== src/Lib.antt =====
-- Models of the application manager: packages are installed by a daemon that receives requests, and
-- their certificates tell which domains they may use.
--
-- The parts, and the file of the repository that each one models:
-- - Permset: src/utils/permset.c, the set of permissions that a package requests and is granted.
--   `add` is the `add` of the source in the order of its tests: `enter` is its branch for a new
--   name (with `grow`, the realloc by 8 entries), `settle` its end. The text lists are read by
--   `add_list`; Permset/Resets has what leaves or resets flags.
-- - DomainSpec: src/utils/domain-spec.c, the domains that a certificate may use or deliver, as a
--   list of names with a permission, and its text form.
-- - CertChain: src/cert/common-cert.c, the search of the trust of a certificate. It reads a
--   specification in each certificate by DomainSpec, and compares it to the one of the issuer.
-- - PathEntry: src/utils/path-entry.c, the tree of the installed paths, with variables on its
--   entries.
-- - PathEntry/Walk: its walk `path_entry_for_each_in_buffer`, which calls a function on each entry;
--   PathEntry/Relpath the path of an entry and the removal of entries.
-- - Request: src/afmpkg/afmpkg-request.c and src/afmpkg/afmpkg-server.c. A request is composed by
--   `afmpkg_request_add_line` from the lines that `receive` cuts out of a socket; its FILE lines
--   enter a PathEntry tree. Request/Process is `afmpkg_request_process` with the list of the
--   transactions, Request/Reply the reply line, Request/Receive the loop on `recv` and
--   `afmpkg_serve`.
-- - Client: src/afmpkg/afmpkg-client.c, which composes the lines of a request in a buffer. `compose`
--   of Client/Composed is a program that calls its operations in turn; Client/Served puts it in
--   front of the server of Request.
-- - UnitProcess: src/units/unit-process.c. `matches` and `offset` search a text, UnitProcess/Corpus
--   splits the instance of the template into units and describes them, UnitProcess/Template opens the
--   template and makes its instance, `pack` and `dedup_slashes`
--   clean the texts in place, which is modelled by the text that is written.
-- - FileTypes: of src/afmpkg/afmpkg.c the types of the files of a package, variables on the entries
--   of a PathEntry tree: `reset_types`, `default_types` and `open_types` are the three walks with
--   their callbacks, FileTypes/Manifest has the callbacks on the manifest and
--   `compute_files_properties`, with src/utils/mime-type.c.
-- - ManifestText and Manifest: src/utils/manifest.c, the texts that name an application, and the
--   check of a manifest and its completion. Manifest/Named is about the texts, Manifest/Kept what
--   the changes of targets and permissions leave, Manifest/Normal and Manifest/Fulfilled the
--   texts that are added, Manifest/Checked the whole.
-- - Permits: of src/afmpkg/afmpkg.c the permissions: `check_permissions` enters those of the manifest
--   in a Permset, and `setup_permissions`, a part of `setup_security`, gives them to `setperm`.
-- - Package: src/afmpkg/afmpkg.c, what an installation or a removal does with one package and with
--   all packages of a root. Package/Content checks the contents, Package/Meta completes the manifest
--   and its targets, Package/Security tags the files and sets permissions and plugs between `begin`
--   and `end`, Package/Process is `process_package`, Package/Roots finds the root packages and is
--   `afmpkg_process`. Package/Keeps and Package/Steps say which states its parts lead to.
-- - Standard: src/afmpkg/afmpkg-std.c, the operations that Package calls, on a session with
--   sec-lsm-manager and on the files of UnitOper. Standard/Clean, Standard/OnePackage and
--   Standard/Whole follow the session through one package and through all.
-- - RpmPlugin: src/rpm-plugin/redpesk.c, which records and numbers the packages of a transaction of
--   RPM, and sends a request of Client for each. RpmPlugin/Numbered and RpmPlugin/Sent are about the
--   numbers and the requests, RpmPlugin/Transacted about the two hooks in turn, RpmPlugin/Received
--   about what the server of Request gets.
-- - UnitPath: src/units/unit-desc.c and src/units/unit-fs.c, the paths of a unit's files.
-- - UnitOper: src/utils/unit-oper.c, which puts and removes those files, and the part of
--   src/afmpkg/afmpkg-std.c that does so for all units of a package.
-- - UnitFile: src/units/normalize-unit-file.c, a byte at a time.
-- - SignatureName: src/cert/signature-name.c, the names of the files that hold signatures.
-- - Secmgr: src/secmgr/secmgr-wrap.c, the session with the security manager, whose calls it
--   records.
-- - PathType: src/utils/path-type.c, the types of the installed files and their names, with those
--   keys in PathType/Keys.
-- - Afid: src/utils/manage-afid.c, the bitmap from which application numbers are allocated.
-- - Base holds what they share; Examples has runs on small inputs.
--
-- A C text is the list of its bytes, without its final 0. Every model of code that allocates takes
-- a `Memory`, the outcomes of the calls of malloc to come, and gives back what is left of it, so
-- that a refusal can stand at any call. Errors are negative integers, as in the source.
--
-- Fuel: `add_words` and `read_domains` have a round for each byte of the text, and each round
-- takes a byte at least. `skip_words` has 63 rounds, the number of words, and `skip_used` 1999,
-- the number of numbers. `digits_onto` has 20, 22 or 24, and 2 ^ 64 has 20 digits.
-- `check_crt_chain` takes the depth of its calls as an argument, since no depth is enough for
-- certificates in a circle.
--
-- `grow_size` has 65, and a size that doubles overflows after 64 at the latest. `corpus_split`
-- has two more than the corpus has bytes, and a round takes a byte at least. `setup_permissions`
-- has one more than the set has entries. `search_marker` has one more than its path has bytes.
--
-- What the code does not own is a parameter: GnuTLS is the record `Tls` of CertChain,
-- sec-lsm-manager the record `Library` of Secmgr, whose answers may depend on all calls made
-- before, the files and systemd the record `System` of UnitOper, json-c the records `JsonC` of
-- FileTypes, Permits, Package and Manifest, the results of `recv`, the clock and the package
-- operations are arguments of Request, and the numbers that the unit files hold are an argument of
-- Afid. The record `Host` of Package holds the reading of a manifest and the files; its
-- `Operations` are those that Standard gives. `Tools` of UnitProcess/Template is Mustach and the
-- reading of the template. `Plugin` of RpmPlugin has the environment and `dial`, which sends what a
-- client holds to the installer.
--
-- Not modelled: of src/afmpkg/afmpkg.c the reading of the configuration of a project; the former
-- installation and its RPM plugin; of src/rpm-plugin/redpesk.c the build that calls the installation
-- directly, and the hooks that only trace; the connection of the client; the binding, the command
-- line programs, the signatures and digests, the widget tools, and what is input and output only;
-- in src/utils/path-entry.c the prepending of a path, which gives the start of an absolute walk; in
-- src/cert/common-cert.c the sorting and the reading of files.
pub mod Afid
pub mod Base
pub mod CertChain
pub mod Client
pub mod DomainSpec
pub mod Examples
pub mod FileTypes
pub mod Manifest
pub mod ManifestText
pub mod PathEntry
pub mod PathType
pub mod Permits
pub mod Permset
pub mod Request
pub mod RpmPlugin
pub mod Secmgr
pub mod SignatureName
pub mod UnitFile
pub mod UnitOper
pub mod UnitPath
pub mod UnitProcess
pub mod Package
pub mod Standard
