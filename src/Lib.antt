-- ===== src/Lib.antt =====
-- net-gateway-api: the Knative ingress controller for the Gateway API.
--
-- The controller turns a KIngress into HTTPRoutes, ReferenceGrants and Gateway listeners, and probes
-- the Gateway's pods until they serve the new version before it moves traffic. Each part of the
-- program has a module here.
--
-- - pkg/reconciler/ingress/resources: Resources. Host is LongestHost; Headers the sorted header
--   lists; Probes is UpdateProbeHash, RemoveEndpointProbes, AddEndpointProbe and AddOldBackend; Make
--   is HTTPRouteKey and MakeHTTPRoute; Grant is MakeReferenceGrant.
-- - pkg/reconciler/ingress/config/gateway.go: Config, the external and the local Gateway of a
--   ConfigMap. Config.Store is store.go beside it, and Config.Copies the deep copies of
--   zz_generated.deepcopy.go; both are about memory. Config.Watch is NewStore with the resync of
--   NewController, by the contents of the configurations.
-- - pkg/status/status.go: Status. Types has the requests and answers; Prober is IsProbeActive and
--   DoProbes with probeRequest; Events has the cancellations, the workers and the goroutines, and the
--   steps that may follow each other in any order. Counters and Queue are about the counts of routes
--   and pods, Keys about the map of routes, and Contract about the answers of IsProbeActive, with what
--   each event may change of them.
-- - pkg/reconciler/ingress/reconcile_resources.go: Reconcile. Backends is probeTargets, with the
--   URLs that it lists in Urls and Listing, and computeBackends; Route is reconcileHTTPRoute and
--   reconcileHTTPRouteUpdate, with the rollout from one reconciliation (Round) to the next in Rounds and
--   the prober between them in Probed; Tls is reconcileTLS; Listeners is reconcileGatewayListeners and
--   clearGatewayListeners.
-- - pkg/reconciler/ingress/ingress.go: Reconcile.Ingress, ReconcileKind and FinalizeKind. Quiet and
--   Reconcile.Ingress.Silent follow the marks through all actions, and Reconcile.Ingress.Settled an
--   Ingress whose rollouts have ended, up to a whole rollout in its Rollout.
-- - pkg/reconciler/ingress/lister.go: Reconcile.Lister, BackendsToProbeTargets.
-- - pkg/reconciler/ingress/controller.go: Controller, the handlers that NewController registers and
--   the ready callback that it gives to the prober.
--
-- The modules below these hold their theorems. Examples runs the theorems at concrete objects.
--
-- How the parts interact: ReconcileKind calls reconcileHTTPRoute for each rule, which asks the prober
-- for the probe that is active and makes or updates the route; then DoProbes is called with the
-- targets of the route. The reconciler knows the prober by the record Manager of Status.Types, which
-- Status.Events.manager fills. What a rollout and an Ingress whose rollouts have ended need of a prober
-- are the records Settling and Steady, which Reconcile.Route.Probed, with the lister of lister.go where
-- the Gateway has pods, and Reconcile.Ingress.Settled.Probed fill from the theorems on the prober. An
-- action of the reconciler is a function on a World: the cluster, the prober, the recorded events and
-- the marks on the status of the Ingress (Reconcile.World). A Controller is the controller's queue with
-- the prober and the tracker: a notification of an informer is turned into the calls of its handlers,
-- and an event of the prober puts the keys of its callbacks on the queue; Controller.Runs follows both
-- in any order.
--
-- Conventions. An error is a value of Base.Error, and a Go panic (an index out of range, a nil
-- pointer) is the outcome panic of Base.Result. Numbers are natural; the conversions to int32 keep
-- their wrap-around. The counters of the prober are integers. A Go map is the list of its entries in
-- the order of one iteration, and a set is a list; maps are compared as these lists, and
-- slices.SortFunc leaves items that tie in their order. In-place changes of a slice or an object that
-- others see (the hosts that LongestHost sorts, the route from which probes are removed) are part of
-- the results. Every loop is a structural recursion, so there is no fuel; the loop of
-- clearGatewayListeners is recursion on the number of rounds left. The loop of a worker is a list of
-- events; Status.Queue.Settle takes one for each item that is queued.
--
-- The prober's pointers are indices into lists that only grow. A step of Status.Events is atomic:
-- onProbingSuccess with both of its decrements, onProbingCancellation with its loop, a processed work
-- item. The probe of an item is made in the state in which its end is handled.
--
-- Parameters stand for code outside of the repository: Kmeta (knative.dev/pkg/kmeta), Parsers (YAML
-- and configmap), Cluster (listers and client), Transport (prober.Do), the functions of Env on an
-- Ingress, Machinery (informers' handlers and filters, and the controller's queue), UntypedStore and
-- Contexts (configmap.UntypedStore and context.Context), ConfigMaps (the untyped store with its
-- constructors and callbacks, and its type filter). What the packages document of Kmeta, Machinery,
-- Contexts and ConfigMaps is in the records KmetaLaws, MachineryLaws, ContextsLaws and
-- ConfigMapsLaws; Accepts of Reconcile.Route.Progress is an API server that accepts updates. The types
-- of the Gateway API and of KIngress are records in Model of the fields that the program reads or
-- sets.
--
-- Not modelled: the two commands (calls of third-party code), the generated clients and informers,
-- logs, delays, rate limits and the time limit of a probe (any answer of the transport may stand for
-- it), and the message texts of wrapped errors beyond their first words.
pub mod Base
pub mod Model
pub mod Resources
pub mod Config
pub mod Status
pub mod Reconcile
pub mod Controller
pub mod Examples
