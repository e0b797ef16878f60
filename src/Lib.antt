-- ===== src/Lib.antt =====
-- FreeBSD Flatpak: a compatibility layer that installs and runs Flatpak applications on FreeBSD.
--
-- The program reads what a user names (a ref, an application's ID), looks for it in the configured
-- remotes, checks it out with its runtime and the extensions that both declare, and starts it in a
-- sandbox made from the permissions of its metadata and of the user's overrides. Modelled is what
-- decides: the parsers, the configuration of remotes, the choice among refs and remotes, the
-- merging of overrides and the choice of extensions. System calls, the network, OSTree and the
-- printing of messages are not.
--
-- - Prelude: names of the libraries, Boolean tests on native numbers, lists, results.
-- - Text: Rust's `str` as the list of its code points, with the methods that the program calls;
--   B-tree maps and sets keyed by strings as lists in order.
-- - FlatpakRef (src/flatpak_ref.rs): `FlatpakRef`, `PartialRef` and the rules for their parts.
--   `FlatpakRef::parse` is `parse`, `PartialRef::parse` is `parse_partial`. Used by all that
--   follows.
-- - FlatpakMetadata (src/flatpak_metadata.rs): the reader of key files, on which the resolution of
--   applications and the extension points stand.
-- - StaticOverrides (src/sandbox/static_overrides.rs): the layers of overrides over an
--   application's metadata; what it renders is read by FlatpakMetadata. The layers' texts are
--   arguments.
-- - Remotes.Config (src/remotes/remote_config.rs): the configuration of remotes. `Disk` holds the
--   configuration files by name, the metadata caches that exist, and the repository; what the
--   program calls of the repository is the parameter `Storage`. Reading, writing and removing a
--   configuration file is taken to succeed; removing a cache may fail (`cache_error`). `write` is one
--   replacement of a file, as the source renames a finished file.
-- - Remotes.Refs (src/remotes/ref_resolution.rs, records of src/remotes/mod.rs and
--   src/ostree/mod.rs): the choice of a ref, of its replacement, of its runtime, of a commit and of
--   the remote. `Environment` holds what is called outside the file: configured remotes and their
--   summaries, installed runtimes, replacements and history. The command `inspect_refs`, which
--   prints, and `checkout_ref` are left out.
-- - Extensions (src/extensions/extension_points.rs, conditions of src/extensions/activation.rs):
--   the points that metadata declares, the refs that they take, and which of these are kept. A
--   metadata file is its text, or `none` where it cannot be read; the facts of the host, which
--   `detect` collects, are an argument. A point is known by its place in the list, as `ptr::eq`
--   tells points apart.
-- - FileArguments (src/sandbox/file_argument_translation.rs): URIs of files among the arguments,
--   percent encoding on bytes, and the normal form of paths. The working directory is an argument,
--   `none` where it cannot be read. Paths are Unix paths, whose components are the root, `.`, `..`
--   and names. That decoded bytes are UTF-8 is not checked.
-- - FilesystemPermissions (src/sandbox/filesystem_permissions.rs): the permissions that the
--   effective metadata lists.
-- - FilesystemGrants (src/sandbox/filesystem_grants.rs): the directories of the host that those
--   permissions give, and where a path of the host is in the sandbox. `Disk` holds what the
--   filesystem answers after given directories were created; a path is looked up in its normal form,
--   for which the working directory is an argument; the environment, the mount points and
--   the text of `user-dirs.dirs` are arguments. `translate_args` is left out.
-- - Paths: `Path` and `PathBuf` as their components, which is how `Path` compares, and sets of paths
--   in order. What the program does with a path's text beyond its components is not told apart.
-- - ProcessIdentity (src/process_identity.rs): the start time of a process, as a text.
-- - StaleRecovery (src/sandbox/stale_sandbox_recovery.rs, a snapshot's references of
--   src/sandbox/process_supervision.rs, launchers of src/installation/run_records.rs): which sandbox
--   roots are in use, in what order the others are torn down, and what is done to each. A `View` is
--   what is read at one moment; a `Round` holds what the system answers while one root is torn down,
--   where a repeated reading has a number. What is done is a list of `Action`, beside the result.
--   The mount table is the text that `mount` prints. A failure of the system is a constructor.
-- - SecureMount (src/secure_mount.rs): the helper that mounts as root for its caller, from its
--   arguments to the operation that it then does. `Kernel` holds what the kernel answers, where
--   an open file is the number of its descriptor; the opens are made name by name with the source's
--   flags, and what a flag means is the kernel's. The duplicate of a descriptor is the descriptor.
--
-- Strings: the order of texts is that of code points, which is that of the UTF-8 bytes; lengths
-- that the source takes in bytes are `byte_len`. An error message is a constructor with the parts
-- that the message names.
--
-- Fuel: the loop over replacements in Remotes.Refs takes one more than the number of entries and
-- one for the end, since a round that goes on meets an entry not seen before. Taking an affix off
-- repeatedly in Text takes the length of the text, since each round takes a character at least.
-- In StaleRecovery the loops that collect the roots in use take the number of edges and one more,
-- since each round but the last adds the end of an edge, and the order takes the number of paths.
-- In FilesystemGrants the depth of an expansion goes from 1 to 8, as in the source, and the recursion
-- is on what is left of it.
-- All other loops are recursion on lists.
--
-- Not modelled: the setup of a sandbox (mounts, launch, supervision, the spawn broker), what the mount
-- helper does behind its checks, desktop and portal integration, host resources, installation records
-- but for what recovery reads, the command line, and the helpers in C.
pub mod Prelude
pub mod Text
pub mod FilesystemGrants
pub mod Paths
pub mod FlatpakRef
pub mod FlatpakMetadata
pub mod StaticOverrides
pub mod Remotes
pub mod Extensions
pub mod FileArguments
pub mod FilesystemPermissions
pub mod ProcessIdentity
pub mod SecureMount
pub mod StaleRecovery
