-- ===== src/Lib.antt =====
-- The kernel image builder and its configuration checker.
-- Strings of bytes are lists of numbers; Base and Strings hold what all parts share, with the
-- functions of Go's strings package that the program calls, Paths those of path and filepath,
-- Sorting and Regex those of slices and regexp.
--
-- Ikconfig models internal/ikconfig and cmd/ikconfig. Ikconfig/Extract is `Extract`, with the gzip
-- decoder as a parameter. Ikconfig/Config is `Parse`, `State` and `goldenLine`, Ikconfig/Verify is
-- `Verify` and `drift`, with the report as a list of lines, Ikconfig/Policy is the table `Policy`,
-- and Ikconfig/Command has the subcommands over a parameter that gives what reading a path gives.
-- Rootfs models internal/rootfs/rootfs.go: Rootfs/Unpack is `Build` with all that it calls, as calls
-- added to a history over a parameter that says which of them work (Rootfs/Writer), and Rootfs/Plan
-- is the list of calls that an archive asks for. Tar is what archive/tar reads from an archive.
-- Builder models cmd/ossein-kernel/main.go: Builder/Toolchain is the choice of targets for the
-- entries of the LLVM tarball, `llvmEntryTarget`, `pruneLLVMPath` and the test of
-- `writeLLVMSymlink`, and Builder/Toolchain/Extract the extraction and `prepareLLVM`, whose stamp
-- file is that of Builder/Stamp.
-- Builder/Boot is `boot`, `readStatus` and the machines of `buildKernel` and `smokeTest`, and
-- Builder/Guest what the guest of a booted machine leaves in the shared directory, a parameter.
-- Builder/Download is `fetchFile` with all that it calls, over System, a file system in which every
-- call may fail, half done or not, or be the one in which the process is stopped; what the server
-- sends and SHA-256 are parameters.
-- Builder/Seed is `resolveBootstrap` and below, with the zstd reader as a parameter. Builder/Disk is
-- `prepareRootfs`, which runs `Build` with what its calls leave in the image file (Rootfs/Image).
-- In this file system a path is taken as it is written: no call follows a symbolic link.
-- Builder/Toolchain/Contained says of which archives the extraction meets no link that it made.
-- System/Triples states what programs over the file system do from files with a property, however
-- they end; System/Quiet, what they do when no call fails by a fault.
-- Builder/Stage is the environment that `stageWorkdir` stages for the guest.
-- Builder/Workdir is `stageWorkdir` with `stagePatches`, and Builder/Run is `buildKernel` and `run`,
-- over a parameter that says what a run meets: the servers, the machines, what the guests leave.
-- Builder/Promote is `smokeTest` and `promote`, with `WriteFile` of primordium as a parameter.
-- Vm models internal/vm/vm.go: the command line and `New`, with a parameter that says which calls of
-- the library vz work (Vm/Refusals), and in Vm/Loops the waiting of `Start` and `Wait` over lists of
-- events.
-- Init models cmd/ossein-kernel/init/main.go as calls of the system, each added to a history, over a
-- parameter, `World`, that gives the answer to a call after a history: Init/Mounts, Init/Network,
-- Init/Build and Init/Status are the steps, Init/Main is `run` and `main`.
-- Numbers holds Itoa and Atoi, which carry the exit status from the guest to the host.
--
-- All loops are recursions on lists, but for the attempts of a download, which are counted as in the
-- source, and the digits of a number, where its successor is fuel enough.
-- Not modelled: the command-line parser, the gzip decoder, the text of log lines, the timer of
-- a stalled download, which is one of the endings of a body, the listing of directories, the
-- library primordium, and the scripts that run in the guest.
pub mod Base
pub mod Strings
pub mod Numbers
pub mod Init
pub mod Vm
pub mod Sorting
pub mod Regex
pub mod Paths
pub mod Ikconfig
pub mod Tar
pub mod System
pub mod Rootfs
pub mod Builder
mod Tests
