-- ===== src/Tests.antt =====
-- Tests of the model at concrete inputs: the theorems of the library at one input each.
mod Instances
mod StorageTests
mod RetryTests
mod ScheduledTests
mod ManagerTests
mod OptionsTests
mod RankTests
mod WorkerTests
mod LimitTests
mod StatsTests
mod SystemTests
mod RecoveryTests
mod ApiTests
mod StartedTests
mod ReturnsTests
mod DeliveryTests
mod DispatchEventTests
mod LifecycleTests
mod PulseTests
mod DispatchTests
