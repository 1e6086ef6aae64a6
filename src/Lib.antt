-- ===== src/Lib.antt =====
-- The Linode provider for Terraform: its own logic between the configuration and the API.
--
-- The provider turns declared resources into calls of the API through the client library linodego.
-- Most of its packages copy fields between schemas and structs. The parts modelled here are those that
-- decide: which elements a data source returns, which node pools of a Kubernetes cluster are created,
-- updated or deleted, and which calls change an instance or a volume, in which order and under which
-- conditions.
--
-- Prelude: Boolean tests, lists over the native numbers, equality as an interface, Go's results and
-- maps, the order of strings, permutations.
-- Compare: linode/helper/compare.go. `string_list_elements_equal`, `compare_sets`, `compare_string_sets`,
-- `compare_scopes` and `validate_subset` are its functions of these names; sort.Slice is an insertion
-- sort by the printed form. Node pools use the sets.
-- Filter: linode/helper/frameworkfilter. Filter.Api builds the request (api_filter.go), Filter.Local is
-- the pass over the listed elements (local_filter.go), Filter.Value the lookup of a field by its tag and
-- its normalised text (struct.go), Filter.Latest the choice of the newest element (latest.go),
-- Filter.Validators the check of names (validators.go), and Filter.GetAndFilter the whole (filter.go).
-- An element is the list of its struct's fields. Regular expressions, the printed form of a time, the
-- parsing and order of versions and the list function are arguments.
-- Lke: linode/lke. Lke.Specs expands pool blocks, Lke.Reconcile is ReconcileLKENodePoolSpecs of
-- cluster.go, loop by loop, and Lke.Match is matchPoolsWithSchema, with the order in which Go ranges over
-- the map of pools as an argument. Lke.ControlPlane expands and flattens the control plane with its
-- access list, and Lke.External filters the pools that another resource manages. Lke.Cluster has the
-- calls of the API and the waits of cluster.go and linode/lkenodepool/nodepool.go, Lke.Cluster.Update is
-- updateResource of resource.go, which reconciles the specs and sends the calls. A nil slice or pointer
-- is `none`, and maps of labels are lists in the order of keys.
-- Instance: linode/instance/helpers.go and linode/helper/instance.go. Instance.Power boots, shuts down
-- and reboots, Instance.Disks deletes, resizes and creates disks, and Instance.Resize changes the type.
-- Instance.Configs expands the devices of a config (linode/instance/expand.go) and its interfaces,
-- detaches its volumes, and creates, updates and deletes configs. Instance.Placement moves an instance to
-- another placement group or region, and Instance.Operation is the disk resource of
-- linode/instancedisk, which shuts an instance down around a change of a disk. Instance.Semantics says
-- what the code relies on the API for. Instance.Swap adjusts the disks to a new swap size, and
-- Instance.Update is updateResource of linode/instance/resource.go, which composes all of these; its steps
-- are those of Instance.Update.Handler, and its ResourceData is what it reads of the resource's data.
-- Whether an attribute has changed is told by the SDK. A swap size may ask for a boot disk below 0,
-- which is a case of its own, and a pointer that is nil where the code reads it is an error.
-- Volume: linode/volume. Volume.Create has CreateVolumeFromSource, CreateVolume and Create, Volume.Read
-- has Read, and Volume.Update has Update and Delete, with the state that they save. FlattenVolume and CopyFrom
-- (framework_models.go) keep the known attributes by KeepOrUpdateValue. The conversions of identifiers and
-- sets of tags are arguments, a set being a list in one order; a size is at most as wide as Go's int, and the timeouts are left out.
-- Helpers: linode/helper/retry.go, conversion.go, domain.go, customdiffs/caseinsensitiveset.go, and
-- framework_data.go with default_value.go (Helpers.Attributes, which the volumes use). The
-- retried function is told by what it gives at each attempt, and an integer of so many bits by how many
-- values it has below 0.
-- ObjectStorage: linode/obj/helpers.go, framework_models.go and framework_resource.go. It says where the
-- keys of the object storage come from, and creates and deletes temporary keys; the diagnostics are
-- free of errors when the keys are asked for.
--
-- A function that calls the API is a program over the history of calls: the client, an argument, answers
-- each call from the calls before it. Prelude.Runs has these programs, and how a property of calls is
-- followed through one; instances, clusters, volumes and object storage have calls and clients of their own. The
-- goroutines that detach volumes run one after another, in an order that is an argument.
--
-- Identifiers, sizes and counts are natural numbers. Messages of errors are kept up to their first
-- argument. Deadlines are left out, but for loops that poll: these take the number of ticks until the
-- deadline and recur on it. All other functions recur on lists or strings. Where it is
-- not an argument, the order in which Go ranges over a map is that of the list. Logging is left out.
-- Not modelled: the creation, the deletion and the read of a cluster; the creation and the deletion of an
-- instance, and what its read saves; the resources that copy fields only; the
-- conditions on responses, which rest on the HTTP client. linodego, the plugin frameworks and Go's
-- standard library are arguments where a function stands for a use of them.
pub mod Prelude
pub mod Compare
pub mod Filter
pub mod Lke
pub mod Instance
pub mod Helpers
pub mod ObjectStorage
pub mod Volume
